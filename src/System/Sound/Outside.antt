-- ===== src/System/Sound/Outside.antt =====
-- What comes from outside, and the set-up, push sound requests (source/ControlClient.cpp,
-- source/Connection.cpp, source/MonitorDevice.cpp, source/Application.cpp).
use tkmcollector.Prelude.{ℕ, Bool, String, Option, arith}
use tkmcollector.SafeList.{SafeList}
use tkmcollector.Requests.{Client}
use tkmcollector.Exec.{Env, UpdateLane, ◌>>◌}
use tkmcollector.Application.{Support, start, erase_database, use_database}
use tkmcollector.Options.{Options}
use tkmcollector.Query.Schema.{Backend}
use tkmcollector.ControlClient
use tkmcollector.ControlClient.{ControlRequest, RequestType, handle_type}
use tkmcollector.MonitorConnection
use tkmcollector.MonitorDevice.{Device, connection_removed}
use tkmcollector.MonitorDevice.DataSource.{DataSource}
use tkmcollector.MonitorDevice.Lanes.{update_lane}
use tkmcollector.System.Loops.Lanes.{lane-Costs}
use tkmcollector.System.Measure.{Costs, pushed}
use tkmcollector.System.Sound.{faults}

module _ {M : Type 0} where
  pub command_sound :
      {P : Type 0} (unpack : ControlClient.Unpack P) (env : Env) (d : Client)
      (rq : ControlRequest P) (t : RequestType) (m : M)
      → Costs (pushed faults) 0 (handle_type unpack env d rq t m)
  unfolding handle_type
  command_sound unpack env d rq RequestType.request_session m = ground arith
  command_sound unpack env d rq _ m = ground arith

  pub message_sound :
      {Q : Type 0} (unpack : MonitorConnection.Unpack Q) (pid : ℕ) (hash : String)
      (x : MonitorConnection.Incoming Q) (m : M)
      → Costs (pushed faults) 0 (MonitorConnection.handle unpack pid hash x m)
  unfolding MonitorConnection.handle
  message_sound unpack pid hash x m = ground arith

pub start_sound :
    (env : Env) (w : Support) (o : Options) (erase : Bool) (db : Option Backend)
    → Costs (pushed faults) 0 ((start env w o >> erase_database erase) db)
unfolding start erase_database use_database
start_sound env w o erase db = ground arith

module _ (D : SafeList DataSource) where
  pub lane_sound :
      (env : Env) (lane : UpdateLane) (d : Device D.Carrier)
      → Costs (pushed faults) 0 (update_lane D env lane d)
  lane_sound env = lane-Costs (pushed faults) (λ hash e. omega arith) (λ hash. omega arith) env D

  pub loss_sound : (d : Device D.Carrier) → Costs (pushed faults) 0 (connection_removed d)
  unfolding connection_removed
  loss_sound d = ground arith

-- ===== src/System/Answers/Outside.antt =====
-- What comes from outside owes what it asks (source/ControlClient.cpp), or nothing
-- (source/Connection.cpp, source/MonitorDevice.cpp).
use tkmcollector.Prelude.{ℕ, Bool, String, Option, some, arith}
use tkmcollector.SafeList.{SafeList}
use tkmcollector.Requests.{Client}
use tkmcollector.Exec.{Env, UpdateLane, ◌>>◌}
use tkmcollector.Application.{Support, start, erase_database, use_database}
use tkmcollector.Options.{Options}
use tkmcollector.Query.Schema.{Backend}
use tkmcollector.ControlClient
use tkmcollector.ControlClient.{ControlRequest, RequestType, handle_type}
use tkmcollector.MonitorConnection
use tkmcollector.MonitorDevice.{Device, connection_removed}
use tkmcollector.MonitorDevice.DataSource.{DataSource}
use tkmcollector.MonitorDevice.Lanes.{update_lane}
use tkmcollector.System.{asks}
use tkmcollector.System.Loops.Lanes.{lane-Costs}
use tkmcollector.System.Measure.{sum}
use tkmcollector.System.Answers.{Settles, settled, owed, owed-none}

module _ (c : Client) {M : Type 0} where
  -- A command owes the answers that it asks for.
  pub command-Settles :
      {P : Type 0} (unpack : ControlClient.Unpack P) (env : Env) (d : Client)
      (rq : ControlRequest P) (t : RequestType) (m : M)
      → Settles c (sum (λ x. owed c (some x)) (asks d t)) (handle_type unpack env d rq t m)
  unfolding handle_type
  command-Settles unpack env d rq RequestType.request_session m = ground arith
  command-Settles unpack env d rq _ m = ground arith

  pub message-Settles :
      {Q : Type 0} (unpack : MonitorConnection.Unpack Q) (pid : ℕ) (hash : String)
      (x : MonitorConnection.Incoming Q) (m : M)
      → Settles c 0 (MonitorConnection.handle unpack pid hash x m)
  unfolding MonitorConnection.handle
  message-Settles unpack pid hash x m = ground (arith, owed-none c)

-- The set-up owes nobody an answer.
pub start-Settles :
    (c : Client) (env : Env) (w : Support) (o : Options) (erase : Bool) (db : Option Backend)
    → Settles c 0 ((start env w o >> erase_database erase) db)
unfolding start erase_database use_database
start-Settles c env w o erase db = ground (arith, owed-none c)

module _ (c : Client) (D : SafeList DataSource) where
  pub lane-Settles :
      (env : Env) (lane : UpdateLane) (d : Device D.Carrier)
      → Settles c 0 (update_lane D env lane d)
  lane-Settles env = lane-Costs (settled c) (λ hash e. omega arith) (λ hash. omega arith) env D

  pub loss-Settles : (d : Device D.Carrier) → Settles c 0 (connection_removed d)
  unfolding connection_removed
  loss-Settles d = ground arith

-- ===== src/Database/Loops.antt =====
-- The loops of doLoadDevices and doCleanSessions return, and which sessions the latter ends.
use tkmcollector.Prelude.{ℕ, ◌≡◌, refl, List, [], ◌∷◌, arith, if◌then◌else◌, nat_eq}
use tkmcollector.Outcome.{Returns, ending, returns}
use tkmcollector.SafeList.{SafeList}
use tkmcollector.Messages.{DeviceData, SessionData}
use tkmcollector.Requests.{DatabaseAction, Request}
use tkmcollector.Exec.{Env}
use tkmcollector.Exec.Trace.{database_requests}
use tkmcollector.MonitorDevice.{end_session_request}
use tkmcollector.MonitorDevice.DataSource.{DataSource}
use tkmcollector.DeviceManager.{add_device}
use tkmcollector.Database.{State, load_device, load_each, end_each}

module _ {Db : Type 0} (D : SafeList DataSource) (S : SafeList ℕ) where
  load_device_returns :
      (d : DeviceData) (s : State Db D.Carrier S.Carrier) → ending (load_device D S d s) ≡ returns
  unfolding load_device add_device
  load_device_returns d s = ground arith

  pub load_each_returns :
      (ds : List DeviceData) (s : State Db D.Carrier S.Carrier)
      → ending (load_each D S ds s) ≡ returns
  unfolding load_each
  load_each_returns [] s = refl
  load_each_returns (d ∷ ds) s = grind (arith, load_device_returns, load_each_returns ds)

module _ {Db L C : Type 0} (env : Env) where
  pub end_each_returns :
      (ss : List SessionData) (s : State Db L C) → ending (end_each env ss s) ≡ returns
  unfolding end_each
  end_each_returns [] s = refl
  end_each_returns (x ∷ xs) s = ground (arith, end_each_returns xs s)

-- The hashes of the sessions that have no end yet.
abbrev pub open_sessions : List SessionData → List (Request DatabaseAction)
open_sessions [] = []
open_sessions (s ∷ ss) =
    if nat_eq s.ended 0 then end_session_request s.hash ∷ open_sessions ss else open_sessions ss

module _ {Db L C : Type 0} where
  pub end_each-open_sessions :
      (env : Env) (ss : List SessionData) (s : State Db L C)
      → Returns (λ (_, _, es). database_requests es ≡ open_sessions ss) (end_each env ss s)
  unfolding end_each
  end_each-open_sessions env [] s = refl
  end_each-open_sessions env (x ∷ xs) s = ground (arith, end_each-open_sessions env xs s)

-- ===== src/System/Loops.antt =====
-- What the loops that both databases have sum up to: doLoadDevices and doCleanSessions
-- (source/SQLiteDatabase.cpp, source/PQDatabase.cpp).
pub mod Lanes
pub mod Sqlite
pub mod Postgres
use tkmcollector.Prelude.{ℕ, Bool, true, false, String, ◌≡◌, arith, List, [], ◌∷◌, if◌then◌else◌}
use tkmcollector.SafeList.{SafeList}
use tkmcollector.Messages.{DeviceData, SessionData}
use tkmcollector.Exec.{Effect, Env, EventSource, ◌>>◌, pure}
use tkmcollector.MonitorDevice.{end_session_request}
use tkmcollector.MonitorDevice.DataSource.{DataSource}
use tkmcollector.Database.{State, end_each, load_device, load_each}
use tkmcollector.DeviceManager.{add_device}
use tkmcollector.System.Measure.{Costs, >>=-Costs}

-- A sum that counts neither queries, nor queues that are added to the event loop.
pub record IsBlind (f : Effect → ℕ) : Type 0 where
  pub no_query : (sql : String) → f (Effect.query sql) ≡ 0
  pub no_source : (x : EventSource) → f (Effect.add_event_source x) ≡ 0

module _ (f : Effect → ℕ) where
  module _ (blind : IsBlind f) (D : SafeList DataSource) (S : SafeList ℕ) where
    load_device-Costs :
        {Db : Type 0} (d : DeviceData) (s : State Db D.Carrier S.Carrier)
        → Costs f 0 (load_device D S d s)
    unfolding load_device add_device
    load_device-Costs d s = ground (arith, blind.no_source (EventSource.device_queue d.hash))

    load_each-Costs :
        {Db : Type 0} (ds : List DeviceData) (s : State Db D.Carrier S.Carrier)
        → Costs f 0 (load_each D S ds s)
    unfolding load_each
    load_each-Costs [] s = ground arith
    load_each-Costs (d ∷ ds) s =
        >>=-Costs f 0 0 (load_device D S d) s (λ _. load_each D S ds) (load_device-Costs d s)
          (λ _. load_each-Costs ds)

    pub load_list-Costs :
        {Db : Type 0} (okay : Bool) (l : List DeviceData) (s : State Db D.Carrier S.Carrier)
        → Costs f 0 (((if okay then load_each D S l else pure tt) >> pure true) s)
    load_list-Costs true l s =
        >>=-Costs f 0 0 (load_each D S l) s (λ _. pure true) (load_each-Costs l s)
          (λ _ _. ground arith)
    load_list-Costs false l s = ground arith

  -- A sum that does not count the end of a session.
  module _ (no_end : (hash : String) → f (Effect.push_database (end_session_request hash)) ≡ 0)
      {Db L C : Type 0} (env : Env) where
    end_each-Costs : (ss : List SessionData) (s : State Db L C) → Costs f 0 (end_each env ss s)
    unfolding end_each
    end_each-Costs [] s = ground arith
    end_each-Costs (x ∷ xs) s = ground (arith, no_end x.hash, end_each-Costs xs s)

    pub end_list-Costs :
        (okay : Bool) (ss : List SessionData) (s : State Db L C)
        → Costs f 0 (((if okay then end_each env ss else pure tt) >> pure true) s)
    end_list-Costs true l s =
        >>=-Costs f 0 0 (end_each env l) s (λ _. pure true) (end_each-Costs l s)
          (λ _ _. ground arith)
    end_list-Costs false l s = ground arith

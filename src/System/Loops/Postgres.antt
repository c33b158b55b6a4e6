-- ===== src/System/Loops/Postgres.antt =====
-- What doLoadDevices and doCleanSessions of source/PQDatabase.cpp sum up to.
use tkmcollector.Prelude.{ℕ, String, true, ◌≡◌, arith, Option, none, some, List}
use tkmcollector.SafeList.{SafeList}
use tkmcollector.Messages.{DeviceData, SessionData}
use tkmcollector.Exec.{Effect, Env, ◌>>◌, pure}
use tkmcollector.MonitorDevice.{end_session_request}
use tkmcollector.MonitorDevice.DataSource.{DataSource}
use tkmcollector.Database.{State}
use tkmcollector.Query
use tkmcollector.Postgres.{Pqxx, pq, run_transaction}
use tkmcollector.Postgres.Rows.{device_rows, session_rows, read_with}
use tkmcollector.Postgres.Devices.{do_load_devices, load_some}
use tkmcollector.Postgres.Sessions.{do_clean_sessions, end_some}
use tkmcollector.System.Measure.{Costs, >>=-Costs}
use tkmcollector.System.Loops.{IsBlind, load_list-Costs, end_list-Costs}

module _ (f : Effect → ℕ) (blind : IsBlind f) (p : Pqxx) where
  module _ (D : SafeList DataSource) (S : SafeList ℕ) where
    load_some-Costs :
        (r : Option (List DeviceData)) (s : State p.Connection D.Carrier S.Carrier)
        → Costs f 0 ((load_some p D S r >> pure true) s)
    load_some-Costs none s = ground arith
    load_some-Costs (some l) s = load_list-Costs f blind D S true l s

    pub postgres_load-Costs :
        (s : State p.Connection D.Carrier S.Carrier) → Costs f 0 (do_load_devices p D S s)
    unfolding do_load_devices run_transaction
    postgres_load-Costs s =
        >>=-Costs f 0 0 (run_transaction p (Query.get_devices pq)) s
          (λ rows. load_some p D S (read_with p (device_rows p) rows) >> pure true)
          (ground (arith, blind.no_query (Query.get_devices pq)))
          (λ rows. load_some-Costs (read_with p (device_rows p) rows))

  module _ (no_end : (hash : String) → f (Effect.push_database (end_session_request hash)) ≡ 0)
      {L C : Type 0} (env : Env) where
    end_some-Costs :
        (r : Option (List SessionData)) (s : State p.Connection L C)
        → Costs f 0 ((end_some p env r >> pure true) s)
    end_some-Costs none s = ground arith
    end_some-Costs (some l) s = end_list-Costs f no_end env true l s

    pub postgres_clean-Costs : (s : State p.Connection L C) → Costs f 0 (do_clean_sessions p env s)
    unfolding do_clean_sessions run_transaction
    postgres_clean-Costs s =
        >>=-Costs f 0 0 (run_transaction p (Query.get_sessions pq)) s
          (λ rows. end_some p env (read_with p (session_rows p) rows) >> pure true)
          (ground (arith, blind.no_query (Query.get_sessions pq)))
          (λ rows. end_some-Costs (read_with p (session_rows p) rows))

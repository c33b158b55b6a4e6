-- ===== src/System/Loops/Sqlite.antt =====
-- What doLoadDevices and doCleanSessions of source/SQLiteDatabase.cpp sum up to.
use tkmcollector.Prelude.{ℕ, String, true, ◌≡◌, arith, if◌then◌else◌}
use tkmcollector.SafeList.{SafeList}
use tkmcollector.Exec.{Effect, Env, ◌>>◌, pure}
use tkmcollector.MonitorDevice.{end_session_request}
use tkmcollector.MonitorDevice.DataSource.{DataSource}
use tkmcollector.Database.{State, end_each, load_each}
use tkmcollector.Query
use tkmcollector.Sqlite.{Engine, run_query}
use tkmcollector.Sqlite.Rows.{device_rows, session_rows}
use tkmcollector.Sqlite.Devices.{sql, do_load_devices}
use tkmcollector.Sqlite.Sessions.{do_clean_sessions}
use tkmcollector.System.Measure.{Costs, >>=-Costs}
use tkmcollector.System.Loops.{IsBlind, load_list-Costs, end_list-Costs}

module _ (f : Effect → ℕ) (blind : IsBlind f) (e : Engine) where
  pub sqlite_load-Costs :
      (D : SafeList DataSource) (S : SafeList ℕ) (s : State e.Db D.Carrier S.Carrier)
      → Costs f 0 (do_load_devices e D S s)
  unfolding do_load_devices run_query
  sqlite_load-Costs D S s =
      >>=-Costs f 0 0 (run_query e (Query.get_devices sql) device_rows) s
        (λ (o, l). (if o then load_each D S l else pure tt) >> pure true)
        (ground (arith, blind.no_query (Query.get_devices sql)))
        λ (o, l). load_list-Costs f blind D S o l

  pub sqlite_clean-Costs :
      (no_end : (hash : String) → f (Effect.push_database (end_session_request hash)) ≡ 0)
      {L C : Type 0} (env : Env) (s : State e.Db L C)
      → Costs f 0 (do_clean_sessions e env s)
  unfolding do_clean_sessions run_query
  sqlite_clean-Costs no_end env s =
      >>=-Costs f 0 0 (run_query e (Query.get_sessions sql) session_rows) s
        (λ (o, l). (if o then end_each env l else pure tt) >> pure true)
        (ground (arith, blind.no_query (Query.get_sessions sql)))
        λ (o, l). end_list-Costs f no_end env o l

-- ===== src/Sqlite/Handler/Endings.antt =====
-- How a handler of the database ends: which requests go through a null pointer or throw.
use tkmcollector.Prelude.{ℕ, String, true, ◌≡◌, ◌∙◌, ap, refl, arith, List, if◌then◌else◌}
use tkmcollector.Outcome.{Outcome, ending}
use tkmcollector.SafeList.{SafeList}
use tkmcollector.Messages.Payload.{UnpackData}
use tkmcollector.Requests.{BulkData, DatabaseAction, Request}
use tkmcollector.Exec.{Env, ◌>>◌, pure}
use tkmcollector.Exec.Rules.{>>=_ends}
use tkmcollector.MonitorDevice.DataSource.{DataSource}
use tkmcollector.Query
use tkmcollector.Database.{State, load_each, end_each}
use tkmcollector.Database.Requests.{expected}
use tkmcollector.Sqlite.{Engine, Row, run_query}
use tkmcollector.Sqlite.Rows.{device_rows, session_rows}
use tkmcollector.Sqlite.Reading.{callback_ending, callback_ending-reading, reading}
use tkmcollector.Sqlite.Rows.Readable.{and_then}
use tkmcollector.Sqlite.Devices.{
  sql, do_init_database, do_load_devices, do_get_devices, do_add_device, do_remove_device,
}
use tkmcollector.Sqlite.Sessions.{
  do_clean_sessions, do_get_sessions, do_add_session, do_rem_session, do_end_session,
}
use tkmcollector.Database.Loops.{load_each_returns, end_each_returns}
use tkmcollector.Sqlite.Data.{do_add_data}
use tkmcollector.Sqlite.Handler.{handle_action, request_handler}

module _ (e : Engine) (D : SafeList DataSource) (S : SafeList ℕ) (unpack : UnpackData) (env : Env)
    (now : ℕ) (rq : Request DatabaseAction) (s : State e.Db D.Carrier S.Carrier) where
  -- A query ends as the reading of its rows does.
  ending-run_query :
      {A : Type 0} (text : String) (callback : List Row → Outcome A)
      → ending (run_query e text callback s) ≡ ending (callback (e.exec s.db text).rows)
  unfolding run_query
  ending-run_query text callback = ground arith

  load_devices_ends :
      ending (do_load_devices e D S s)
      ≡ ending (device_rows (e.exec s.db (Query.get_devices sql)).rows)
  unfolding do_load_devices
  load_devices_ends =
      >>=_ends (run_query e (Query.get_devices sql) device_rows) s
        (λ (o, l). (if o then load_each D S l else pure tt) >> pure true)
        (λ (o, l) s'. ground (arith, load_each_returns D S l s'))
      ∙ ending-run_query (Query.get_devices sql) device_rows

  clean_sessions_ends :
      ending (do_clean_sessions e env s)
      ≡ ending (session_rows (e.exec s.db (Query.get_sessions sql)).rows)
  unfolding do_clean_sessions
  clean_sessions_ends =
      >>=_ends (run_query e (Query.get_sessions sql) session_rows) s
        (λ (o, l). (if o then end_each env l else pure tt) >> pure true)
        (λ (o, l) s'. ground (arith, end_each_returns env l s'))
      ∙ ending-run_query (Query.get_sessions sql) session_rows

  ending-handle_action :
      (a : DatabaseAction) (b : BulkData)
      → rq.bulk_data ≡ b
      → ending (handle_action e D S unpack env now rq a s)
        ≡ and_then (expected a rq.client b rq.args) (callback_ending e s.db a b)
  unfolding handle_action do_init_database do_get_devices do_add_device do_remove_device
      do_get_sessions do_add_session do_rem_session do_end_session do_add_data run_query
  ending-handle_action DatabaseAction.load_devices b h = load_devices_ends
  ending-handle_action DatabaseAction.clean_sessions b h = clean_sessions_ends
  ending-handle_action DatabaseAction.add_device (BulkData.device_data d) h = ground arith
  ending-handle_action DatabaseAction.remove_device (BulkData.device_data d) h = ground arith
  ending-handle_action DatabaseAction.get_sessions (BulkData.device_data d) h = ground arith
  ending-handle_action DatabaseAction.rem_session (BulkData.session_data x) h = ground arith
  ending-handle_action DatabaseAction.add_session (BulkData.session_info x) h = ground arith
  ending-handle_action _ _ h = ground arith

  -- The handling of any request of the SQLite database, over any engine, ends as `expected` says:
  -- requests that name no client where one is needed go through a null pointer, data of another type
  -- and a missing hash throw; and where `expected` says that it returns, it does, unless a number that
  -- is read from the rows of its first query cannot be: ids, ports and times for the handlers that
  -- list devices or sessions, ids for those that add or remove one. Then it ends as stol, stoi or
  -- stoul do at the first such text.
  pub ending-sqlite_handler :
      ending (request_handler e D S unpack env now rq s)
      ≡ and_then
          (expected rq.action rq.client rq.bulk_data rq.args)
          (reading e s.db rq.action rq.bulk_data)
  unfolding request_handler
  ending-sqlite_handler =
      ending-handle_action rq.action rq.bulk_data refl
      ∙ ap (and_then (expected rq.action rq.client rq.bulk_data rq.args))
          (callback_ending-reading e s.db rq.action rq.bulk_data)

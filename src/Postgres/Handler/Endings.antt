-- ===== src/Postgres/Handler/Endings.antt =====
-- How a handler of the PostgreSQL database ends: which requests go through a null pointer or throw.
use tkmcollector.Prelude.{ℕ, String, Bool, true, false, ◌≡◌, refl, Option, none, some, List, arith}
use tkmcollector.Outcome.{Ending, ending, returns}
use tkmcollector.SafeList.{SafeList}
use tkmcollector.Messages.{DeviceData, SessionData}
use tkmcollector.Messages.Payload.{UnpackData}
use tkmcollector.Requests.{BulkData, DatabaseAction, Request}
use tkmcollector.Exec.{Env, Exec, ◌>>=◌, ◌>>◌, pure}
use tkmcollector.MonitorDevice.DataSource.{DataSource}
use tkmcollector.Options.{Options}
use tkmcollector.Query
use tkmcollector.Database.{State}
use tkmcollector.Database.Loops.{load_each_returns, end_each_returns}
use tkmcollector.Database.Requests.{expected}
use tkmcollector.Postgres.{Pqxx, connection_info, pq, reconnect, run_transaction}
use tkmcollector.Postgres.Rows.{device_rows, session_rows, read_with}
use tkmcollector.Postgres.Devices.{
  do_init_database, do_load_devices, load_some, do_get_devices, do_add_device, do_remove_device,
}
use tkmcollector.Postgres.Sessions.{
  do_clean_sessions, end_some, do_get_sessions, do_add_session, do_rem_session, do_end_session,
}
use tkmcollector.Postgres.Data.{do_add_data}
use tkmcollector.Postgres.Handler.{do_connect, handle_action, request_handler}

-- What a request that uses the connection itself comes to: a closed one is opened again.
abbrev pub connected : (is_open : Bool) → Ending → DatabaseAction → Ending → Ending
connected false opening DatabaseAction.init_database e = opening
connected false opening DatabaseAction.connect e = opening
connected _ opening a e = e

module _ (p : Pqxx) (o : Options) (D : SafeList DataSource) (S : SafeList ℕ) (unpack : UnpackData)
    (env : Env) (now : ℕ) (rq : Request DatabaseAction)
    (s : State p.Connection D.Carrier S.Carrier) where
  load_some_returns :
      (l : Option (List DeviceData)) (s' : State p.Connection D.Carrier S.Carrier)
      → ending ((load_some p D S l >> pure true) s') ≡ returns
  load_some_returns none s' = refl
  load_some_returns (some l) s' = ground (arith, load_each_returns D S l s')

  end_some_returns :
      (l : Option (List SessionData)) (s' : State p.Connection D.Carrier S.Carrier)
      → ending ((end_some p env l >> pure true) s') ≡ returns
  end_some_returns none s' = refl
  end_some_returns (some l) s' = ground (arith, end_each_returns env l s')

  -- A transaction returns, whatever it finds.
  transaction_returns :
      (sql : String) (f : Option (List p.Row) → Exec (State p.Connection D.Carrier S.Carrier) Bool)
      → ((rows : Option (List p.Row)) (s' : State p.Connection D.Carrier S.Carrier)
          → ending (f rows s') ≡ returns)
      → ending ((run_transaction p sql >>= f) s) ≡ returns
  unfolding run_transaction
  transaction_returns sql f h =
      ground
        (arith, h (p.transact s.db sql).rows (record s { db = (p.transact s.db sql).connection }))

  load_devices_returns : ending (do_load_devices p D S s) ≡ returns
  unfolding do_load_devices
  load_devices_returns =
      transaction_returns (Query.get_devices pq)
        (λ rows. load_some p D S (read_with p (device_rows p) rows) >> pure true)
        λ rows. load_some_returns (read_with p (device_rows p) rows)

  clean_sessions_returns : ending (do_clean_sessions p env s) ≡ returns
  unfolding do_clean_sessions
  clean_sessions_returns =
      transaction_returns (Query.get_sessions pq)
        (λ rows. end_some p env (read_with p (session_rows p) rows) >> pure true)
        λ rows. end_some_returns (read_with p (session_rows p) rows)

  ending-handle_action :
      (a : DatabaseAction) (b : BulkData)
      → rq.bulk_data ≡ b
      → ending (handle_action p o D S unpack env now rq a s)
        ≡ connected
            (p.is_open s.db)
            (ending (p.connect (connection_info o)))
            a
            (expected a rq.client b rq.args)
  unfolding handle_action do_init_database do_get_devices do_add_device do_remove_device
      do_get_sessions do_add_session do_rem_session do_end_session do_add_data do_connect reconnect
      run_transaction
  ending-handle_action DatabaseAction.load_devices b h = ground (arith, load_devices_returns)
  ending-handle_action DatabaseAction.clean_sessions b h = ground (arith, clean_sessions_returns)
  ending-handle_action DatabaseAction.add_device (BulkData.device_data d) h = ground arith
  ending-handle_action _ _ h = ground arith

  -- The handling of any request of the PostgreSQL database ends as `expected` says, whatever the
  -- transactions do and whatever can be read of their rows; only InitDatabase and Connect, over a
  -- closed connection, end like the attempt to open it again where that does not return.
  pub ending-postgres_handler :
      ending (request_handler p o D S unpack env now rq s)
      ≡ connected
          (p.is_open s.db)
          (ending (p.connect (connection_info o)))
          rq.action
          (expected rq.action rq.client rq.bulk_data rq.args)
  unfolding request_handler
  ending-postgres_handler = ending-handle_action rq.action rq.bulk_data refl

-- ===== src/System/Answers/Postgres.antt =====
-- The PostgreSQL database passes on the answer that it owes (source/PQDatabase.cpp).
use tkmcollector.Prelude.{ℕ, arith}
use tkmcollector.SafeList.{SafeList}
use tkmcollector.Messages.Payload.{UnpackData}
use tkmcollector.Requests.{Client, DatabaseAction, Request}
use tkmcollector.Exec.{Env}
use tkmcollector.MonitorDevice.DataSource.{DataSource}
use tkmcollector.Options.{Options}
use tkmcollector.Database.{State}
use tkmcollector.Postgres.{Pqxx, reconnect, run_transaction}
use tkmcollector.Postgres.Devices.{
  do_init_database, do_get_devices, do_add_device, do_remove_device,
}
use tkmcollector.Postgres.Sessions.{do_get_sessions, do_add_session, do_rem_session, do_end_session}
use tkmcollector.Postgres.Data.{do_add_data}
use tkmcollector.Postgres.Handler.{do_connect, handle_action, request_handler}
use tkmcollector.System.Loops.Postgres.{postgres_load-Costs, postgres_clean-Costs}
use tkmcollector.System.Answers.{
  Settles, settled, settled-IsBlind, settled_end, database_owes, owed-none,
}

module _ (p : Pqxx) (o : Options) (D : SafeList DataSource) (S : SafeList ℕ) (unpack : UnpackData)
    (c : Client) (env : Env) (now : ℕ) (rq : Request DatabaseAction)
    (s : State p.Connection D.Carrier S.Carrier) where
  handle_action-Settles :
      (a : DatabaseAction)
      → Settles c (database_owes c a rq.client) (handle_action p o D S unpack env now rq a s)
  unfolding handle_action do_init_database do_get_devices do_add_device do_remove_device
      do_get_sessions do_add_session do_rem_session do_end_session do_add_data do_connect reconnect
      run_transaction
  handle_action-Settles DatabaseAction.load_devices =
      postgres_load-Costs (settled c) (settled-IsBlind c) p D S s
  handle_action-Settles DatabaseAction.clean_sessions =
      postgres_clean-Costs (settled c) (settled-IsBlind c) p (settled_end c) env s
  handle_action-Settles _ = ground (arith, owed-none c)

  pub postgres-Settles :
      Settles c (database_owes c rq.action rq.client) (request_handler p o D S unpack env now rq s)
  unfolding request_handler
  postgres-Settles = handle_action-Settles rq.action

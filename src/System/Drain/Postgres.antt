-- ===== src/System/Drain/Postgres.antt =====
-- The PostgreSQL database pushes less work than it was given (source/PQDatabase.cpp).
use tkmcollector.Prelude.{ℕ, arith}
use tkmcollector.SafeList.{SafeList}
use tkmcollector.Messages.Payload.{UnpackData}
use tkmcollector.Requests.{DatabaseAction, Request}
use tkmcollector.Exec.{Env}
use tkmcollector.MonitorDevice.DataSource.{DataSource}
use tkmcollector.Options.{Options}
use tkmcollector.Database.{State}
use tkmcollector.Postgres.{Pqxx, reconnect, run_transaction}
use tkmcollector.Postgres.Devices.{
  do_init_database, do_load_devices, do_get_devices, do_add_device, do_remove_device,
}
use tkmcollector.Postgres.Sessions.{do_get_sessions, do_add_session, do_rem_session, do_end_session}
use tkmcollector.Postgres.Data.{do_add_data}
use tkmcollector.Postgres.Handler.{do_connect, handle_action, request_handler}
use tkmcollector.System.Measure.{pushed}
use tkmcollector.System.Loops.Postgres.{postgres_load-Costs, postgres_clean-Costs}
use tkmcollector.System.Drain.{
  EasesFor, Eases-of_nothing, cleans, cleans_end, effort, pushed-IsBlind,
}

module _ (p : Pqxx) (o : Options) (D : SafeList DataSource) (S : SafeList ℕ) (unpack : UnpackData)
    (env : Env) (now : ℕ) (rq : Request DatabaseAction)
    (s : State p.Connection D.Carrier S.Carrier) where
  handle_action-EasesFor :
      (a : DatabaseAction) → EasesFor a (handle_action p o D S unpack env now rq a s)
  unfolding handle_action do_init_database do_get_devices do_add_device do_remove_device
      do_get_sessions do_add_session do_rem_session do_end_session do_add_data do_connect reconnect
      run_transaction
  handle_action-EasesFor DatabaseAction.load_devices =
      Eases-of_nothing 0 (do_load_devices p D S s)
        (postgres_load-Costs (pushed cleans) (pushed-IsBlind cleans) p D S s)
        (postgres_load-Costs (pushed effort) (pushed-IsBlind effort) p D S s)
  handle_action-EasesFor DatabaseAction.clean_sessions =
      postgres_clean-Costs (pushed cleans) (pushed-IsBlind cleans) p cleans_end env s
  handle_action-EasesFor _ = ground arith

  pub postgres-EasesFor : EasesFor rq.action (request_handler p o D S unpack env now rq s)
  unfolding request_handler
  postgres-EasesFor = handle_action-EasesFor rq.action

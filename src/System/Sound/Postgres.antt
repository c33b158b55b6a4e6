-- ===== src/System/Sound/Postgres.antt =====
-- The PostgreSQL database pushes sound requests (source/PQDatabase.cpp).
use tkmcollector.Prelude.{ℕ, arith}
use tkmcollector.SafeList.{SafeList}
use tkmcollector.Messages.Payload.{UnpackData}
use tkmcollector.Requests.{DatabaseAction, Request}
use tkmcollector.Exec.{Env}
use tkmcollector.MonitorDevice.DataSource.{DataSource}
use tkmcollector.Options.{Options}
use tkmcollector.Database.{State}
use tkmcollector.Postgres.{Pqxx, reconnect, run_transaction}
use tkmcollector.Postgres.Devices.{
  do_init_database, do_get_devices, do_add_device, do_remove_device,
}
use tkmcollector.Postgres.Sessions.{do_get_sessions, do_add_session, do_rem_session, do_end_session}
use tkmcollector.Postgres.Data.{do_add_data}
use tkmcollector.Postgres.Handler.{do_connect, handle_action, request_handler}
use tkmcollector.System.Loops.Postgres.{postgres_load-Costs, postgres_clean-Costs}
use tkmcollector.System.Measure.{Costs, pushed}
use tkmcollector.System.Sound.{faults, faults-IsBlind, faults_end}

module _ (p : Pqxx) (o : Options) (D : SafeList DataSource) (S : SafeList ℕ) (unpack : UnpackData)
    (env : Env) (now : ℕ) (rq : Request DatabaseAction)
    (s : State p.Connection D.Carrier S.Carrier) where
  handle_action_sound :
      (a : DatabaseAction) → Costs (pushed faults) 0 (handle_action p o D S unpack env now rq a s)
  unfolding handle_action do_init_database do_get_devices do_add_device do_remove_device
      do_get_sessions do_add_session do_rem_session do_end_session do_add_data do_connect reconnect
      run_transaction
  handle_action_sound DatabaseAction.load_devices =
      postgres_load-Costs (pushed faults) faults-IsBlind p D S s
  handle_action_sound DatabaseAction.clean_sessions =
      postgres_clean-Costs (pushed faults) faults-IsBlind p faults_end env s
  handle_action_sound _ = ground arith

  pub postgres_sound : Costs (pushed faults) 0 (request_handler p o D S unpack env now rq s)
  unfolding request_handler
  postgres_sound = handle_action_sound rq.action

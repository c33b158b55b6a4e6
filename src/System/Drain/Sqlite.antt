-- ===== src/System/Drain/Sqlite.antt =====
-- The SQLite database pushes less work than it was given (source/SQLiteDatabase.cpp).
use tkmcollector.Prelude.{ℕ, arith}
use tkmcollector.SafeList.{SafeList}
use tkmcollector.Messages.Payload.{UnpackData}
use tkmcollector.Requests.{DatabaseAction, Request}
use tkmcollector.Exec.{Env}
use tkmcollector.MonitorDevice.DataSource.{DataSource}
use tkmcollector.Database.{State}
use tkmcollector.Sqlite.{Engine, run_query}
use tkmcollector.Sqlite.Devices.{
  do_init_database, do_load_devices, do_get_devices, do_add_device, do_remove_device,
}
use tkmcollector.Sqlite.Sessions.{do_get_sessions, do_add_session, do_rem_session, do_end_session}
use tkmcollector.Sqlite.Data.{do_add_data}
use tkmcollector.Sqlite.Handler.{handle_action, request_handler}
use tkmcollector.System.Measure.{pushed}
use tkmcollector.System.Loops.Sqlite.{sqlite_load-Costs, sqlite_clean-Costs}
use tkmcollector.System.Drain.{
  EasesFor, Eases-of_nothing, cleans, cleans_end, effort, pushed-IsBlind,
}

module _ (e : Engine) (D : SafeList DataSource) (S : SafeList ℕ) (unpack : UnpackData) (env : Env)
    (now : ℕ) (rq : Request DatabaseAction) (s : State e.Db D.Carrier S.Carrier) where
  handle_action-EasesFor :
      (a : DatabaseAction) → EasesFor a (handle_action e D S unpack env now rq a s)
  unfolding handle_action do_init_database do_get_devices do_add_device do_remove_device
      do_get_sessions do_add_session do_rem_session do_end_session do_add_data run_query
  handle_action-EasesFor DatabaseAction.load_devices =
      Eases-of_nothing 0 (do_load_devices e D S s)
        (sqlite_load-Costs (pushed cleans) (pushed-IsBlind cleans) e D S s)
        (sqlite_load-Costs (pushed effort) (pushed-IsBlind effort) e D S s)
  handle_action-EasesFor DatabaseAction.clean_sessions =
      sqlite_clean-Costs (pushed cleans) (pushed-IsBlind cleans) e cleans_end env s
  handle_action-EasesFor _ = ground arith

  pub sqlite-EasesFor : EasesFor rq.action (request_handler e D S unpack env now rq s)
  unfolding request_handler
  sqlite-EasesFor = handle_action-EasesFor rq.action

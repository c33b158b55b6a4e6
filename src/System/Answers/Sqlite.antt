-- ===== src/System/Answers/Sqlite.antt =====
-- The SQLite database passes on the answer that it owes (source/SQLiteDatabase.cpp).
use tkmcollector.Prelude.{ℕ, arith}
use tkmcollector.SafeList.{SafeList}
use tkmcollector.Messages.Payload.{UnpackData}
use tkmcollector.Requests.{Client, DatabaseAction, Request}
use tkmcollector.Exec.{Env}
use tkmcollector.MonitorDevice.DataSource.{DataSource}
use tkmcollector.Database.{State}
use tkmcollector.Sqlite.{Engine, run_query}
use tkmcollector.Sqlite.Devices.{do_init_database, do_get_devices, do_add_device, do_remove_device}
use tkmcollector.Sqlite.Sessions.{do_get_sessions, do_add_session, do_rem_session, do_end_session}
use tkmcollector.Sqlite.Data.{do_add_data}
use tkmcollector.Sqlite.Handler.{handle_action, request_handler}
use tkmcollector.System.Loops.Sqlite.{sqlite_load-Costs, sqlite_clean-Costs}
use tkmcollector.System.Answers.{
  Settles, settled, settled-IsBlind, settled_end, database_owes, owed-none,
}

module _ (e : Engine) (D : SafeList DataSource) (S : SafeList ℕ) (unpack : UnpackData) (c : Client)
    (env : Env) (now : ℕ) (rq : Request DatabaseAction) (s : State e.Db D.Carrier S.Carrier) where
  handle_action-Settles :
      (a : DatabaseAction)
      → Settles c (database_owes c a rq.client) (handle_action e D S unpack env now rq a s)
  unfolding handle_action do_init_database do_get_devices do_add_device do_remove_device
      do_get_sessions do_add_session do_rem_session do_end_session do_add_data run_query
  handle_action-Settles DatabaseAction.load_devices =
      sqlite_load-Costs (settled c) (settled-IsBlind c) e D S s
  handle_action-Settles DatabaseAction.clean_sessions =
      sqlite_clean-Costs (settled c) (settled-IsBlind c) e (settled_end c) env s
  handle_action-Settles _ = ground (arith, owed-none c)

  pub sqlite-Settles :
      Settles c (database_owes c rq.action rq.client) (request_handler e D S unpack env now rq s)
  unfolding request_handler
  sqlite-Settles = handle_action-Settles rq.action

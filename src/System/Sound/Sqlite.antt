-- ===== src/System/Sound/Sqlite.antt =====
-- The SQLite database pushes sound requests (source/SQLiteDatabase.cpp).
use tkmcollector.Prelude.{ℕ, arith}
use tkmcollector.SafeList.{SafeList}
use tkmcollector.Messages.Payload.{UnpackData}
use tkmcollector.Requests.{DatabaseAction, Request}
use tkmcollector.Exec.{Env}
use tkmcollector.MonitorDevice.DataSource.{DataSource}
use tkmcollector.Database.{State}
use tkmcollector.Sqlite.{Engine, run_query}
use tkmcollector.Sqlite.Devices.{do_init_database, do_get_devices, do_add_device, do_remove_device}
use tkmcollector.Sqlite.Sessions.{do_get_sessions, do_add_session, do_rem_session, do_end_session}
use tkmcollector.Sqlite.Data.{do_add_data}
use tkmcollector.Sqlite.Handler.{handle_action, request_handler}
use tkmcollector.System.Loops.Sqlite.{sqlite_load-Costs, sqlite_clean-Costs}
use tkmcollector.System.Measure.{Costs, pushed}
use tkmcollector.System.Sound.{faults, faults-IsBlind, faults_end}

module _ (e : Engine) (D : SafeList DataSource) (S : SafeList ℕ) (unpack : UnpackData) (env : Env)
    (now : ℕ) (rq : Request DatabaseAction) (s : State e.Db D.Carrier S.Carrier) where
  handle_action_sound :
      (a : DatabaseAction) → Costs (pushed faults) 0 (handle_action e D S unpack env now rq a s)
  unfolding handle_action do_init_database do_get_devices do_add_device do_remove_device
      do_get_sessions do_add_session do_rem_session do_end_session do_add_data run_query
  handle_action_sound DatabaseAction.load_devices =
      sqlite_load-Costs (pushed faults) faults-IsBlind e D S s
  handle_action_sound DatabaseAction.clean_sessions =
      sqlite_clean-Costs (pushed faults) faults-IsBlind e faults_end env s
  handle_action_sound _ = ground arith

  pub sqlite_sound : Costs (pushed faults) 0 (request_handler e D S unpack env now rq s)
  unfolding request_handler
  sqlite_sound = handle_action_sound rq.action

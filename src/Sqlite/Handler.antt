-- ===== src/Sqlite/Handler.antt =====
-- `SQLiteDatabase::requestHandler`, and the handlers that do nothing (source/SQLiteDatabase.cpp).
pub mod Replies
pub mod Endings
use tkmcollector.Prelude.{ℕ, Bool, true}
use tkmcollector.SafeList.{SafeList}
use tkmcollector.Messages.Payload.{UnpackData}
use tkmcollector.Requests.{Request, DatabaseAction}
use tkmcollector.Exec.{Env, Exec, pure}
use tkmcollector.MonitorDevice.DataSource.{DataSource}
use tkmcollector.Database.{State}
use tkmcollector.Sqlite.{Engine}
use tkmcollector.Sqlite.Devices.{
  do_init_database, do_load_devices, do_get_devices, do_add_device, do_remove_device,
}
use tkmcollector.Sqlite.Sessions.{
  do_clean_sessions, do_get_sessions, do_add_session, do_rem_session, do_end_session,
}
use tkmcollector.Sqlite.Data.{do_add_data}

module _ {S : Type 0} where
  abbrev do_check_database : Exec S Bool
  do_check_database = pure true

  abbrev do_connect : Exec S Bool
  do_connect = pure true

  abbrev do_disconnect : Exec S Bool
  do_disconnect = pure true

module _ (e : Engine) (D : SafeList DataSource) (S : SafeList ℕ) (unpack : UnpackData) where
  -- The switch. `now` is `time(NULL)` in the handlers of sessions.
  unfoldable pub handle_action :
      Env → ℕ → Request DatabaseAction → DatabaseAction → Exec (State e.Db D.Carrier S.Carrier) Bool
  handle_action env now rq DatabaseAction.check_database = do_check_database
  handle_action env now rq DatabaseAction.init_database = do_init_database e D S env rq
  handle_action env now rq DatabaseAction.connect = do_connect
  handle_action env now rq DatabaseAction.disconnect = do_disconnect
  handle_action env now rq DatabaseAction.load_devices = do_load_devices e D S
  handle_action env now rq DatabaseAction.get_devices = do_get_devices e D S env rq
  handle_action env now rq DatabaseAction.add_device = do_add_device e D S env rq
  handle_action env now rq DatabaseAction.remove_device = do_remove_device e D S env rq
  handle_action env now rq DatabaseAction.get_sessions = do_get_sessions e env rq
  handle_action env now rq DatabaseAction.add_session = do_add_session e now rq
  handle_action env now rq DatabaseAction.rem_session = do_rem_session e env rq
  handle_action env now rq DatabaseAction.end_session = do_end_session e now rq
  handle_action env now rq DatabaseAction.clean_sessions = do_clean_sessions e env
  handle_action env now rq DatabaseAction.add_data = do_add_data e unpack rq

  unfoldable pub request_handler :
      Env → ℕ → Request DatabaseAction → Exec (State e.Db D.Carrier S.Carrier) Bool
  unfolding handle_action
  request_handler env now rq = handle_action env now rq rq.action

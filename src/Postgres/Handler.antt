-- ===== src/Postgres/Handler.antt =====
-- `PQDatabase::requestHandler`, and the handlers of the connection (source/PQDatabase.cpp).
pub mod Replies
pub mod Endings
use tkmcollector.Prelude.{ℕ, Bool, true, if◌then◌else◌}
use tkmcollector.SafeList.{SafeList}
use tkmcollector.Messages.Payload.{UnpackData}
use tkmcollector.Requests.{Request, DatabaseAction}
use tkmcollector.Exec.{Env, Exec, ◌>>=◌, ◌>>◌, pure, gets}
use tkmcollector.MonitorDevice.DataSource.{DataSource}
use tkmcollector.Options.{Options}
use tkmcollector.Database.{State}
use tkmcollector.Postgres.{Pqxx, reconnect}
use tkmcollector.Postgres.Devices.{
  do_init_database, do_load_devices, do_get_devices, do_add_device, do_remove_device,
}
use tkmcollector.Postgres.Sessions.{
  do_clean_sessions, do_get_sessions, do_add_session, do_rem_session, do_end_session,
}
use tkmcollector.Postgres.Data.{do_add_data}

module _ {S : Type 0} where
  abbrev do_check_database : Exec S Bool
  do_check_database = pure true

  abbrev do_disconnect : Exec S Bool
  do_disconnect = pure true

module _ (p : Pqxx) {L C : Type 0} where
  -- The result of reconnect is not read.
  unfoldable pub do_connect : Options → Exec (State p.Connection L C) Bool
  do_connect o = do
    open' ← gets (λ s. p.is_open s.db)
    if open' then pure true else do reconnect p o; pure true

module _ (p : Pqxx) (o : Options) (D : SafeList DataSource) (S : SafeList ℕ)
    (unpack : UnpackData) where
  -- The switch. `now` is `time(NULL)` in the handlers of sessions.
  unfoldable pub handle_action :
      Env
      → ℕ
      → Request DatabaseAction
      → DatabaseAction
      → Exec (State p.Connection D.Carrier S.Carrier) Bool
  handle_action env now rq DatabaseAction.check_database = do_check_database
  handle_action env now rq DatabaseAction.init_database = do_init_database p D S o env rq
  handle_action env now rq DatabaseAction.connect = do_connect p o
  handle_action env now rq DatabaseAction.disconnect = do_disconnect
  handle_action env now rq DatabaseAction.load_devices = do_load_devices p D S
  handle_action env now rq DatabaseAction.get_devices = do_get_devices p D S env rq
  handle_action env now rq DatabaseAction.add_device = do_add_device p D S env rq
  handle_action env now rq DatabaseAction.remove_device = do_remove_device p D S env rq
  handle_action env now rq DatabaseAction.get_sessions = do_get_sessions p env rq
  handle_action env now rq DatabaseAction.add_session = do_add_session p now rq
  handle_action env now rq DatabaseAction.rem_session = do_rem_session p env rq
  handle_action env now rq DatabaseAction.end_session = do_end_session p now rq
  handle_action env now rq DatabaseAction.clean_sessions = do_clean_sessions p env
  handle_action env now rq DatabaseAction.add_data = do_add_data p unpack rq

  unfoldable pub request_handler :
      Env → ℕ → Request DatabaseAction → Exec (State p.Connection D.Carrier S.Carrier) Bool
  unfolding handle_action
  request_handler env now rq = handle_action env now rq rq.action

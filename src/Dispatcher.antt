-- ===== src/Dispatcher.antt =====
-- source/Dispatcher.cpp: the collector's dispatcher, which passes requests on to the database and to
-- the devices, and sends statuses to the clients.
pub mod Routing
use tkmcollector.Prelude.{ℕ, String, Bool, true, Option, none, some, [], if◌then◌else◌, str_eq}
use tkmcollector.SafeList.{SafeList}
use tkmcollector.Defaults.{Arg, Val, val_for}
use tkmcollector.Defaults.Args.{Args, find, at, emplace}
use tkmcollector.Messages.{Envelope, Mesg, Recipient, Status, StatusWhat}
use tkmcollector.Requests.{
  BulkData, Client, DatabaseAction, DeviceAction, DispatcherAction, Request, plain_request,
  as_device_data,
}
use tkmcollector.Exec.{
  Env, Exec, Effect, Peer, ◌>>=◌, ◌>>◌, pure, gets, call, perform, lift, write_envelope,
}
use tkmcollector.DeviceManager.{Manager, get_device, hash_at}

abbrev pub status_what : String → StatusWhat
status_what s =
    if str_eq s (val_for Val.status_okay)
    then StatusWhat.okay
    else if str_eq s (val_for Val.status_busy)
    then StatusWhat.busy
    else StatusWhat.error

abbrev pub status_of : Args → Status
status_of args = record {
  request_id = find Arg.request_id args;
  what = elim (find Arg.status args) [ none ↦ none | some s ↦ some (status_what s) ];
  reason = find Arg.reason args;
}

abbrev pub status_envelope : Args → Envelope
status_envelope args = record {
  mesg = Mesg.control_status (status_of args);
  target = Recipient.any;
  origin = Recipient.collector;
}

abbrev pub no_such_device : Request DispatcherAction → Request DispatcherAction
no_such_device rq = record {
  client = rq.client;
  action = DispatcherAction.send_status;
  args = emplace Arg.reason "No such device" (emplace Arg.status (val_for Val.status_error) []);
  bulk_data = BulkData.int 0;
}

module _ {M : Type 0} where
  -- doInitDatabase, doGetDevices: the arguments go on, the data does not.
  abbrev forward_args : Env → DatabaseAction → Request DispatcherAction → Exec M Bool
  forward_args env action rq = call env (
      Effect.push_database (record {
        client = rq.client;
        action = action;
        args = rq.args;
        bulk_data = BulkData.int 0;
      }))

  -- doGetSessions, doRemoveSession, doAddDevice, doRemoveDevice
  abbrev forward : Env → DatabaseAction → Request DispatcherAction → Exec M Bool
  forward env action rq = call env (
      Effect.push_database
        (record { client = rq.client; action = action; args = rq.args; bulk_data = rq.bulk_data }))

  unfoldable pub do_init_database : Env → Request DispatcherAction → Exec M Bool
  do_init_database env = forward_args env DatabaseAction.init_database

  unfoldable pub do_get_devices : Env → Request DispatcherAction → Exec M Bool
  do_get_devices env = forward_args env DatabaseAction.get_devices

  unfoldable pub do_get_sessions : Env → Request DispatcherAction → Exec M Bool
  do_get_sessions env = forward env DatabaseAction.get_sessions

  unfoldable pub do_remove_session : Env → Request DispatcherAction → Exec M Bool
  do_remove_session env = forward env DatabaseAction.rem_session

  unfoldable pub do_add_device : Env → Request DispatcherAction → Exec M Bool
  do_add_device env = forward env DatabaseAction.add_device

  unfoldable pub do_remove_device : Env → Request DispatcherAction → Exec M Bool
  do_remove_device env = forward env DatabaseAction.remove_device

  unfoldable pub do_quit_collector : Env → Exec M Bool
  do_quit_collector env = call env (Effect.push_dispatcher (plain_request DispatcherAction.quit))

  -- `exit` does not return; what comes after it in the model is not reached.
  unfoldable pub do_quit : Exec M Bool
  do_quit = do perform Effect.exit_success; pure true

  -- The log line reads the status with `at`.
  unfoldable pub do_send_status : Env → Request DispatcherAction → Exec M Bool
  do_send_status env rq = elim rq.client [
    | none ↦ pure true
    | some c ↦ (do
      lift (at Arg.status rq.args)
      write_envelope env (Peer.control c) (status_envelope rq.args))
  ]

module _ {L : Type 0} (S : SafeList ℕ) where
  abbrev to_device : Env → DeviceAction → Request DispatcherAction → Exec (Manager L S.Carrier) Bool
  to_device env action rq = do
    data' ← lift (as_device_data rq.bulk_data)
    found ← gets (get_device S data'.hash)
    elim found [
      | none ↦ call env (Effect.push_dispatcher (no_such_device rq))
      | some a ↦ (do
        hash ← gets (λ m. hash_at m.device a)
        call env (
            Effect.push_device hash (record {
              client = rq.client;
              action = action;
              args = rq.args;
              bulk_data = rq.bulk_data;
            })))
    ]

  unfoldable pub do_connect_device :
      Env → Request DispatcherAction → Exec (Manager L S.Carrier) Bool
  do_connect_device env = to_device env DeviceAction.connect

  unfoldable pub do_disconnect_device :
      Env → Request DispatcherAction → Exec (Manager L S.Carrier) Bool
  do_disconnect_device env = to_device env DeviceAction.disconnect

  unfoldable pub do_start_collecting :
      Env → Request DispatcherAction → Exec (Manager L S.Carrier) Bool
  do_start_collecting env = to_device env DeviceAction.start_collecting

  unfoldable pub do_stop_collecting :
      Env → Request DispatcherAction → Exec (Manager L S.Carrier) Bool
  do_stop_collecting env = to_device env DeviceAction.stop_collecting

  unfoldable pub handle_action :
      Env → Request DispatcherAction → DispatcherAction → Exec (Manager L S.Carrier) Bool
  handle_action env rq DispatcherAction.init_database = do_init_database env rq
  handle_action env rq DispatcherAction.quit_collector = do_quit_collector env
  handle_action env rq DispatcherAction.get_devices = do_get_devices env rq
  handle_action env rq DispatcherAction.get_sessions = do_get_sessions env rq
  handle_action env rq DispatcherAction.remove_session = do_remove_session env rq
  handle_action env rq DispatcherAction.add_device = do_add_device env rq
  handle_action env rq DispatcherAction.remove_device = do_remove_device env rq
  handle_action env rq DispatcherAction.connect_device = do_connect_device env rq
  handle_action env rq DispatcherAction.disconnect_device = do_disconnect_device env rq
  handle_action env rq DispatcherAction.start_collecting = do_start_collecting env rq
  handle_action env rq DispatcherAction.stop_collecting = do_stop_collecting env rq
  handle_action env rq DispatcherAction.send_status = do_send_status env rq
  handle_action env rq DispatcherAction.quit = do_quit

  unfoldable pub request_handler : Env → Request DispatcherAction → Exec (Manager L S.Carrier) Bool
  unfolding handle_action
  request_handler env rq = handle_action env rq rq.action

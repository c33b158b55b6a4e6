-- ===== src/ControlClient.antt =====
-- source/ControlClient.cpp: a control client's requests become requests of the dispatcher.
pub mod Requests
use tkmcollector.Prelude.{String, Bool, true, false, some, if◌then◌else◌, List, []}
use tkmcollector.Defaults.{Arg, Val, val_for}
use tkmcollector.Defaults.Args.{Args, emplace}
use tkmcollector.Messages.{DeviceData, SessionData, Mesg, Recipient}
use tkmcollector.Requests.{BulkData, Client, DispatcherAction, Request}
use tkmcollector.Exec.{Env, Exec, Effect, Peer, ◌>>=◌, ◌>>◌, pure, call, write_envelope}
use tkmcollector.Exec.ReadLoop.{ReadEnd, read_loop}

-- msg::control::Request_Type; `other` stands for the types that the switch does not name.
pub data RequestType : Type 0 where
  request_session init_database quit_collector get_devices get_sessions remove_session : RequestType
  add_device remove_device connect_device disconnect_device : RequestType
  start_collecting stop_collecting other : RequestType

-- msg::control::Request; its data is a message that protobuf has packed.
pub record ControlRequest (Payload : Type 0) : Type 0 where
  pub id : String
  pub type : RequestType
  pub forced : Bool
  pub payload : Payload

-- `UnpackTo` of protobuf, for the messages that the requests carry.
pub record Unpack (Payload : Type 0) : Type 0 where
  pub device_data : Payload → DeviceData
  pub session_data : Payload → SessionData
  -- the id of a msg::control::SessionInfo
  pub session_id : Payload → String

-- An envelope with a control request.
pub record Incoming (Payload : Type 0) : Type 0 where
  pub origin : Recipient
  pub request : ControlRequest Payload

abbrev pub is_control : Recipient → Bool
is_control Recipient.control = true
is_control _ = false

module _ {Payload : Type 0} where
  abbrev pub id_args : ControlRequest Payload → Args
  id_args rq = emplace Arg.request_id rq.id []

  abbrev pub forced_args : ControlRequest Payload → Args
  forced_args rq =
      if rq.forced then emplace Arg.forced (val_for Val.true) (id_args rq) else id_args rq

  abbrev pub accepts : Incoming Payload → Bool
  accepts x = is_control x.origin

module _ {Payload : Type 0} (unpack : Unpack Payload) (env : Env) {M : Type 0}
    (client : Client) where
  abbrev push : DispatcherAction → Args → BulkData → Exec M Bool
  push action args data' = call env (
      Effect.push_dispatcher
        (record { client = some client; action = action; args = args; bulk_data = data' }))

  -- A request for a device, with its data.
  abbrev push_device_data : DispatcherAction → ControlRequest Payload → Exec M Bool
  push_device_data action rq =
      push action (forced_args rq) (BulkData.device_data (unpack.device_data rq.payload))

  unfoldable pub do_request_session : ControlRequest Payload → Exec M Bool
  do_request_session rq = do
    status ← write_envelope env (Peer.control client) (record {
      mesg = Mesg.control_set_session (unpack.session_id rq.payload);
      target = Recipient.control;
      origin = Recipient.collector;
    })
    if status
        then push DispatcherAction.send_status
            (emplace Arg.reason "Control client session set"
              (emplace Arg.status (val_for Val.status_okay) (id_args rq)))
            (BulkData.int 0)
        else push DispatcherAction.send_status
            (emplace Arg.reason "Failed to set session"
              (emplace Arg.status (val_for Val.status_error) (id_args rq)))
            (BulkData.int 0)

  unfoldable pub do_init_database : ControlRequest Payload → Exec M Bool
  do_init_database rq = push DispatcherAction.init_database (forced_args rq) (BulkData.int 0)

  unfoldable pub do_quit_collector : ControlRequest Payload → Exec M Bool
  do_quit_collector rq = push DispatcherAction.quit_collector (forced_args rq) (BulkData.int 0)

  unfoldable pub do_get_devices : ControlRequest Payload → Exec M Bool
  do_get_devices rq = push DispatcherAction.get_devices (id_args rq) (BulkData.int 0)

  unfoldable pub do_remove_session : ControlRequest Payload → Exec M Bool
  do_remove_session rq =
      push DispatcherAction.remove_session (forced_args rq)
        (BulkData.session_data (unpack.session_data rq.payload))

  unfoldable pub do_add_device : ControlRequest Payload → Exec M Bool
  do_add_device = push_device_data DispatcherAction.add_device

  unfoldable pub do_remove_device : ControlRequest Payload → Exec M Bool
  do_remove_device = push_device_data DispatcherAction.remove_device

  unfoldable pub do_connect_device : ControlRequest Payload → Exec M Bool
  do_connect_device = push_device_data DispatcherAction.connect_device

  unfoldable pub do_disconnect_device : ControlRequest Payload → Exec M Bool
  do_disconnect_device = push_device_data DispatcherAction.disconnect_device

  unfoldable pub do_start_collecting : ControlRequest Payload → Exec M Bool
  do_start_collecting = push_device_data DispatcherAction.start_collecting

  unfoldable pub do_stop_collecting : ControlRequest Payload → Exec M Bool
  do_stop_collecting = push_device_data DispatcherAction.stop_collecting

  unfoldable pub do_get_sessions : ControlRequest Payload → Exec M Bool
  do_get_sessions = push_device_data DispatcherAction.get_sessions

  -- The switch of the read loop.
  unfoldable pub handle_type : ControlRequest Payload → RequestType → Exec M Bool
  unfolding do_request_session do_init_database do_quit_collector do_get_devices do_get_sessions
      do_remove_session do_add_device do_remove_device do_connect_device do_disconnect_device
      do_start_collecting do_stop_collecting
  handle_type rq RequestType.request_session = do_request_session rq
  handle_type rq RequestType.init_database = do_init_database rq
  handle_type rq RequestType.quit_collector = do_quit_collector rq
  handle_type rq RequestType.get_devices = do_get_devices rq
  handle_type rq RequestType.get_sessions = do_get_sessions rq
  handle_type rq RequestType.remove_session = do_remove_session rq
  handle_type rq RequestType.add_device = do_add_device rq
  handle_type rq RequestType.remove_device = do_remove_device rq
  handle_type rq RequestType.connect_device = do_connect_device rq
  handle_type rq RequestType.disconnect_device = do_disconnect_device rq
  handle_type rq RequestType.start_collecting = do_start_collecting rq
  handle_type rq RequestType.stop_collecting = do_stop_collecting rq
  handle_type rq RequestType.other = pure false

  unfoldable pub handle : Incoming Payload → Exec M Bool
  unfolding handle_type
  handle x = handle_type x.request x.request.type

  -- The callback of the client's event source.
  unfoldable pub on_readable : List (Incoming Payload) → ReadEnd → Exec M Bool
  unfolding handle
  on_readable = read_loop accepts handle

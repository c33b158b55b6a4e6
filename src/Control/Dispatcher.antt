-- ===== src/Control/Dispatcher.antt =====
-- control/Dispatcher.cpp: the handlers of the tool's queue. `hash` is `jnkHsh` of
-- libtaskmonitor.
pub mod Lists
pub mod Heard
pub mod Ends
use tkmcollector.Prelude.{
  ℕ, String, ◌<>◌, Bool, true, false, not, Option, none, some, List, [], ◌∷◌, if◌then◌else◌, str_eq,
}
use tkmcollector.Outcome.{Outcome, ok, throws, bad_any_cast, runtime_error}
use tkmcollector.Number.{stoi}
use tkmcollector.Defaults.{Arg, Val, val_for}
use tkmcollector.Defaults.Args.{at, find, is_forced}
use tkmcollector.Messages.{
  DeviceData, DeviceState, Recipient, SessionData, StatusWhat, no_device, no_session,
}
use tkmcollector.Run.{◌>>=◌, ◌>>◌, call, lift, modify, perform, pure, throw}
use tkmcollector.Options.{Default, Key, Options, default_for, get_for}
use tkmcollector.ControlClient.{ControlRequest, RequestType}
use tkmcollector.Control.{
  Action, Answers, BulkData, Call, CollectorStatus, Outgoing, Packed, Request, Step,
}
use tkmcollector.Helpers.{hash_for_device}
use tkmcollector.Control.Command.{plain}
use Lists.{rule, do_device_list, do_session_list}

abbrev as_session_info : BulkData → Outcome String
as_session_info (BulkData.session_info i) = ok i
as_session_info _ = throws bad_any_cast

abbrev as_status : BulkData → Outcome CollectorStatus
as_status (BulkData.status x) = ok x
as_status _ = throws bad_any_cast

abbrev status_text : StatusWhat → String
status_text StatusWhat.okay = val_for Val.status_okay
status_text _ = val_for Val.status_error

-- A request whose data was not set.
abbrev unset : Action → Request
unset a = record { action = a; bulk_data = BulkData.empty; args = [] }

module _ (env : Answers) where
  -- Connection::writeEnvelope
  abbrev pub write_envelope : Outgoing → Step Bool
  write_envelope x = do
    sent ← call env (Call.send x)
    if sent then call env Call.flush else pure true

  -- A request to the collector.
  abbrev write : String → RequestType → Bool → Packed → Step Bool
  write name type forced packed = write_envelope (record {
    target = Recipient.collector;
    origin = Recipient.control;
    request = record { id = name; type = type; forced = forced; payload = packed };
  })

  abbrev push_plain : Action → Step Bool
  push_plain a = call env (Call.push (plain a []))

  -- Connection::connect: whether it returns 0.
  unfoldable pub connect : Options → Step Bool
  unfolding get_for
  connect o = do
    exists' ← call env (
        Call.socket_exists (get_for o Key.runtime_directory)
          (default_for o.build Default.control_socket))
    if not exists' then throw (runtime_error "Collector IPC socket not available") else do
      connected ← call env Call.connect_socket
      if connected then modify (λ s. record s { is_polled = true }) else pure tt
      pure connected

  unfoldable pub do_connect : Options → Step Bool
  do_connect o = do
    connected ← connect o
    if connected then call env (Call.push (unset Action.send_descriptor)) else (do
      perform (Call.print "Connection to collector failed\n")
      call env (Call.push (unset Action.quit)))

  unfoldable pub do_send_descriptor : Step Bool
  do_send_descriptor = do
    sent ← call env Call.send_descriptor
    push_plain (if sent then Action.request_session else Action.quit)

  unfoldable pub do_request_session : Step Bool
  do_request_session =
      write "RequestSession" RequestType.request_session false (Packed.session_info "Collector")

  unfoldable pub do_set_session : Request → Step Bool
  do_set_session rq = do
    session ← lift (as_session_info rq.bulk_data)
    modify (λ s. record s { session = session })
    call env Call.trigger_command

  unfoldable pub do_quit : Step Bool
  do_quit = do perform Call.exit_success; pure true

  unfoldable pub do_init_database : Request → Step Bool
  do_init_database rq =
      write "InitDatabase" RequestType.init_database (is_forced rq.args) Packed.nothing

  unfoldable pub do_get_devices : Step Bool
  do_get_devices = write "GetDevices" RequestType.get_devices false Packed.nothing

  unfoldable pub do_add_device : (String → ℕ) → Request → Step Bool
  unfolding hash_for_device
  do_add_device hash rq = do
    name ← lift (at Arg.device_name rq.args)
    address ← lift (at Arg.device_address rq.args)
    text ← lift (at Arg.device_port rq.args)
    port ← lift (stoi text)
    let d = record no_device { name = name; address = address; port = port }
    write "AddDevice" RequestType.add_device (is_forced rq.args)
        (Packed.device_data (record d { hash = hash_for_device hash d }))

  -- A request that names a device by its hash.
  abbrev write_hash : String → RequestType → Request → Step Bool
  write_hash name type rq = do
    hash ← lift (at Arg.device_hash rq.args)
    write name type (is_forced rq.args) (Packed.device_data (record no_device { hash = hash }))

  unfoldable pub do_remove_device : Request → Step Bool
  do_remove_device = write_hash "RemoveDevice" RequestType.remove_device

  unfoldable pub do_remove_session : Request → Step Bool
  do_remove_session rq = do
    hash ← lift (at Arg.session_hash rq.args)
    write "RemoveSession" RequestType.remove_session (is_forced rq.args)
        (Packed.session_data (record no_session { hash = hash }))

  unfoldable pub do_connect_device : Request → Step Bool
  do_connect_device = write_hash "ConnectDevice" RequestType.connect_device

  unfoldable pub do_disconnect_device : Request → Step Bool
  do_disconnect_device = write_hash "DisconnectDevice" RequestType.disconnect_device

  unfoldable pub do_start_collecting : Request → Step Bool
  do_start_collecting = write_hash "StartCollecting" RequestType.start_collecting

  -- Its id is that of the other request.
  unfoldable pub do_stop_collecting : Request → Step Bool
  do_stop_collecting = write_hash "StartCollecting" RequestType.stop_collecting

  unfoldable pub do_get_sessions : Request → Step Bool
  do_get_sessions rq = write "GetSessions" RequestType.get_sessions (is_forced rq.args) (
      Packed.device_data (elim (find Arg.device_hash rq.args) [
        | none ↦ no_device
        | some h ↦ record no_device { hash = h }
      ]))

  unfoldable pub do_quit_collector : Request → Step Bool
  do_quit_collector rq = do
    written ← write "QuitCollector" RequestType.quit_collector (is_forced rq.args) Packed.nothing
    perform (Call.print (if written then "Requested\n" else "Requested failed\n"))
    push_plain Action.quit

  unfoldable pub do_collector_status : Request → Step Bool
  do_collector_status rq = do
    x ← lift (as_status rq.bulk_data)
    if str_eq x.request_id "RequestSession" then pure true else do
      perform (Call.print rule)
      perform (Call.print ("Status: " <> status_text x.what <> " Reason: " <> x.reason <> "\n"))
      perform (Call.print rule)
      push_plain Action.quit

  -- The switch.
  unfoldable pub handle_action : Options → (String → ℕ) → Request → Action → Step Bool
  unfolding do_connect do_send_descriptor do_request_session do_set_session do_quit do_init_database
      do_get_devices do_add_device do_remove_device do_remove_session do_connect_device
      do_disconnect_device do_start_collecting do_stop_collecting do_get_sessions do_quit_collector
      do_collector_status
  handle_action o hash rq Action.connect = do_connect o
  handle_action o hash rq Action.send_descriptor = do_send_descriptor
  handle_action o hash rq Action.request_session = do_request_session
  handle_action o hash rq Action.set_session = do_set_session rq
  handle_action o hash rq Action.init_database = do_init_database rq
  handle_action o hash rq Action.get_devices = do_get_devices
  handle_action o hash rq Action.get_sessions = do_get_sessions rq
  handle_action o hash rq Action.remove_session = do_remove_session rq
  handle_action o hash rq Action.add_device = do_add_device hash rq
  handle_action o hash rq Action.remove_device = do_remove_device rq
  handle_action o hash rq Action.connect_device = do_connect_device rq
  handle_action o hash rq Action.disconnect_device = do_disconnect_device rq
  handle_action o hash rq Action.start_collecting = do_start_collecting rq
  handle_action o hash rq Action.stop_collecting = do_stop_collecting rq
  handle_action o hash rq Action.quit_collector = do_quit_collector rq
  handle_action o hash rq Action.collector_status = do_collector_status rq
  handle_action o hash rq Action.device_list = do_device_list rq
  handle_action o hash rq Action.session_list = do_session_list rq
  handle_action o hash rq Action.quit = do_quit

  unfoldable pub request_handler : Options → (String → ℕ) → Request → Step Bool
  unfolding handle_action
  request_handler o hash rq = handle_action o hash rq rq.action

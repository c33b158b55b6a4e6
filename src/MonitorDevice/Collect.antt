-- ===== src/MonitorDevice/Collect.antt =====
-- Sessions and streams: the other handlers of source/MonitorDevice.cpp, and `requestHandler`.
use tkmcollector.Prelude.{Bool, true, [], if◌then◌else◌}
use tkmcollector.SafeList.{SafeList}
use tkmcollector.Defaults.{Arg, Val}
use tkmcollector.Defaults.Args.{emplace}
use tkmcollector.Messages.{DeviceState, RequestType}
use tkmcollector.Requests.{
  BulkData, DatabaseAction, DeviceAction, Request, plain_request, reply, as_session_info,
  as_monitor_status,
}
use tkmcollector.Exec.{
  Env, Exec, Effect, Peer, ◌>>=◌, ◌>>◌, pure, gets, modify, call, lift, write_envelope,
}
use tkmcollector.MonitorDevice.{
  Device, push_request, require_connection, set_state, update_state, stop_update_lanes,
}
use tkmcollector.MonitorDevice.DataSource.{DataSource, collector_envelope}
use tkmcollector.MonitorDevice.Lanes.{start_update_lanes}
use tkmcollector.MonitorDevice.Connect.{do_connect, do_send_descriptor, do_disconnect}

abbrev is_connected_or_idle : DeviceState → Bool
is_connected_or_idle DeviceState.connected = true
is_connected_or_idle DeviceState.idle = true
is_connected_or_idle _ = Bool.false

abbrev is_session_set : DeviceState → Bool
is_session_set DeviceState.session_set = true
is_session_set _ = Bool.false

abbrev is_collecting : DeviceState → Bool
is_collecting DeviceState.collecting = true
is_collecting _ = Bool.false

module _ {L : Type 0} where
  unfoldable pub do_request_session : Env → Exec (Device L) Bool
  do_request_session env = do
    require_connection
    hash ← gets (λ d. d.device_data.hash)
    write_envelope env (Peer.monitor hash)
        (collector_envelope "CreateSession" RequestType.create_session)

  unfoldable pub do_set_session : Env → Request DeviceAction → Exec (Device L) Bool
  unfolding update_state push_request
  do_set_session env rq = do
    info ← lift (as_session_info rq.bulk_data)
    modify (λ d. record d { session_info = info })
    modify (λ d. record d { session_hash = info.hash })
    update_state DeviceState.session_set
    hash ← gets (λ d. d.device_data.hash)
    call env (
        Effect.push_database (record (plain_request DatabaseAction.add_session) {
          args = emplace Arg.device_hash hash [];
          bulk_data = BulkData.session_info info;
        }))
    push_request env (plain_request DeviceAction.start_stream)

  unfoldable pub do_stop_stream : Exec (Device L) Bool
  unfolding stop_update_lanes
  do_stop_stream = do stop_update_lanes; modify (set_state DeviceState.idle); pure true

  unfoldable pub do_start_collecting : Env → Request DeviceAction → Exec (Device L) Bool
  unfolding push_request
  do_start_collecting env rq = do
    state ← gets (λ d. d.device_data.state)
    if is_connected_or_idle state
        then (do
          push_request env (plain_request DeviceAction.request_session)
          call env (Effect.push_dispatcher (reply rq Val.status_okay "Collecting requested")))
        else if is_session_set state
        then (do
          push_request env (plain_request DeviceAction.start_stream)
          call env (Effect.push_dispatcher (reply rq Val.status_okay "Collecting start requested")))
        else call env (Effect.push_dispatcher (reply rq Val.status_error "Device not connected"))

  unfoldable pub do_stop_collecting : Env → Request DeviceAction → Exec (Device L) Bool
  unfolding push_request
  do_stop_collecting env rq = do
    state ← gets (λ d. d.device_data.state)
    if is_collecting state
        then (do
          push_request env (plain_request DeviceAction.stop_stream)
          call env (Effect.push_dispatcher (reply rq Val.status_okay "Collecting stop requested")))
        else call env (Effect.push_dispatcher (reply rq Val.status_error "Device not streaming"))

  unfoldable pub do_process_data : Env → Request DeviceAction → Exec (Device L) Bool
  do_process_data env rq = do
    hash ← gets (λ d. d.session_hash)
    call env (
        Effect.push_database (record (plain_request DatabaseAction.add_data) {
          args = emplace Arg.session_hash hash [];
          bulk_data = rq.bulk_data;
        }))

  -- Only logged.
  unfoldable pub do_status : Request DeviceAction → Exec (Device L) Bool
  do_status rq = do lift (as_monitor_status rq.bulk_data); pure true

module _ (S : SafeList DataSource) where
  unfoldable pub do_start_stream : Exec (Device S.Carrier) Bool
  unfolding start_update_lanes
  do_start_stream = do modify (set_state DeviceState.collecting); start_update_lanes S; pure true

  unfoldable pub handle_action :
      Env → Request DeviceAction → DeviceAction → Exec (Device S.Carrier) Bool
  handle_action env rq DeviceAction.connect = do_connect env rq
  handle_action env rq DeviceAction.disconnect = do_disconnect env rq
  handle_action env rq DeviceAction.send_descriptor = do_send_descriptor env rq
  handle_action env rq DeviceAction.request_session = do_request_session env
  handle_action env rq DeviceAction.set_session = do_set_session env rq
  handle_action env rq DeviceAction.start_collecting = do_start_collecting env rq
  handle_action env rq DeviceAction.stop_collecting = do_stop_collecting env rq
  handle_action env rq DeviceAction.start_stream = do_start_stream
  handle_action env rq DeviceAction.stop_stream = do_stop_stream
  handle_action env rq DeviceAction.process_data = do_process_data env rq
  handle_action env rq DeviceAction.status = do_status rq

  unfoldable pub request_handler : Env → Request DeviceAction → Exec (Device S.Carrier) Bool
  unfolding handle_action
  request_handler env rq = handle_action env rq rq.action

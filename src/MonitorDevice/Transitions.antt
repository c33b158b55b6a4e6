-- ===== src/MonitorDevice/Transitions.antt =====
-- The state machine of a device.
use tkmcollector.Prelude.{◌≡◌, arith}
use tkmcollector.Outcome.{Ensures}
use tkmcollector.SafeList.{SafeList}
use tkmcollector.Messages.{DeviceState}
use tkmcollector.Requests.{DeviceAction, Request}
use tkmcollector.Exec.{Env}
use tkmcollector.MonitorDevice.{Device}
use tkmcollector.MonitorDevice.DataSource.{DataSource}
use tkmcollector.MonitorDevice.Connect.{do_connect, do_send_descriptor, do_disconnect}
use tkmcollector.MonitorDevice.Collect.{
  do_start_collecting, do_stop_collecting, do_request_session, do_set_session, do_start_stream,
  do_stop_stream, do_process_data, do_status, handle_action, request_handler,
}

-- The diagram: the action, and the state before and after it.
pub data Move : DeviceAction → DeviceState → DeviceState → Type 0 where
  stay : {a : DeviceAction} {s : DeviceState} → Move a s s
  fail : {s : DeviceState} → Move DeviceAction.connect s DeviceState.disconnected
  described : {s : DeviceState} → Move DeviceAction.send_descriptor s DeviceState.connected
  session : {s : DeviceState} → Move DeviceAction.set_session s DeviceState.session_set
  start : {s : DeviceState} → Move DeviceAction.start_stream s DeviceState.collecting
  stop : {s : DeviceState} → Move DeviceAction.stop_stream s DeviceState.idle

-- A request changes the state along the diagram, and no other datum of the device entry; and the
-- session that the device names stays the one whose lanes it serves.
pub record IsStep {L : Type 0} (a : DeviceAction) (d d' : Device L) : Type 0 where
  pub move : Move a d.device_data.state d'.device_data.state
  pub same_hash : d'.device_data.hash ≡ d.device_data.hash
  pub same_address : d'.device_data.address ≡ d.device_data.address
  pub same_port : d'.device_data.port ≡ d.device_data.port
  pub one_session : d.session_hash ≡ d.session_info.hash → d'.session_hash ≡ d'.session_info.hash

module _ (S : SafeList DataSource) (env : Env) (rq : Request DeviceAction)
    (d : Device S.Carrier) where
  handle_action-IsStep :
      (a : DeviceAction) → Ensures (λ (_, d', _). IsStep a d d') (handle_action S env rq a d)
  unfolding handle_action do_connect do_send_descriptor do_disconnect do_start_collecting
      do_stop_collecting do_request_session do_set_session do_start_stream do_stop_stream
      do_process_data do_status
  handle_action-IsStep DeviceAction.connect = grind (arith, stay, fail)
  handle_action-IsStep DeviceAction.send_descriptor = grind (arith, stay, described)
  handle_action-IsStep DeviceAction.set_session = grind (arith, session)
  handle_action-IsStep DeviceAction.start_stream = grind (arith, start)
  handle_action-IsStep DeviceAction.stop_stream = grind (arith, stop)
  handle_action-IsStep _ = grind (arith, stay)

  -- A request that is handled moves the device along the diagram, keeps the entry's hash, address
  -- and port, and keeps the session's hash that of the session's data.
  pub request_handler-IsStep :
      Ensures (λ (_, d', _). IsStep rq.action d d') (request_handler S env rq d)
  unfolding request_handler
  request_handler-IsStep = handle_action-IsStep rq.action

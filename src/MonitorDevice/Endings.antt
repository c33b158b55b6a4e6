-- ===== src/MonitorDevice/Endings.antt =====
-- How a device's handler ends: which requests go through a null pointer or throw, and when.
use tkmcollector.Prelude.{Bool, ◌≡◌, Option, none, some, arith, if◌then◌else◌}
use tkmcollector.Outcome.{Ending, ending, returns, raises, crashes}
use tkmcollector.SafeList.{SafeList}
use tkmcollector.Requests.{BulkData, DeviceAction, Request}
use tkmcollector.Exec.{Env, Effect}
use tkmcollector.MonitorDevice.{Device, Connection, is_disconnected}
use tkmcollector.MonitorDevice.DataSource.{DataSource}
use tkmcollector.MonitorDevice.Connect.{do_connect, do_send_descriptor, do_disconnect}
use tkmcollector.MonitorDevice.Collect.{
  do_start_collecting, do_stop_collecting, do_request_session, do_set_session, do_start_stream,
  do_stop_stream, do_process_data, do_status, handle_action, request_handler,
}

-- Through `getConnection()`.
abbrev needs_connection : Option Connection → Ending
needs_connection none = crashes
needs_connection (some c) = returns

abbrev connect_ending : Env → Option Connection → Bool → Ending
connect_ending env (some c) resolved = returns
connect_ending env none resolved =
    if env Effect.create_socket then if resolved then returns else crashes else raises

abbrev set_session_ending : BulkData → Ending
set_session_ending (BulkData.session_info i) = returns
set_session_ending _ = raises

abbrev status_ending : BulkData → Ending
status_ending (BulkData.monitor_status s) = returns
status_ending _ = raises

abbrev pub expected : {L : Type 0} → Env → DeviceAction → BulkData → Device L → Ending
expected env DeviceAction.connect b d =
    connect_ending env d.connection (env (Effect.resolve_host d.device_data.address))
expected env DeviceAction.disconnect b d =
    if is_disconnected d.device_data.state then returns else needs_connection d.connection
expected env DeviceAction.send_descriptor b d = needs_connection d.connection
expected env DeviceAction.request_session b d = needs_connection d.connection
expected env DeviceAction.set_session b d = set_session_ending b
expected env DeviceAction.status b d = status_ending b
expected env _ b d = returns

module _ (S : SafeList DataSource) (env : Env) (rq : Request DeviceAction)
    (d : Device S.Carrier) where
  ending-handle_action :
      (a : DeviceAction) → ending (handle_action S env rq a d) ≡ expected env a rq.bulk_data d
  unfolding handle_action do_connect do_send_descriptor do_disconnect do_start_collecting
      do_stop_collecting do_request_session do_set_session do_start_stream do_stop_stream
      do_process_data do_status
  ending-handle_action DeviceAction.connect = ground arith
  ending-handle_action _ = ground arith

  -- The handling of any request ends as `expected` says. Connect on a device without a connection
  -- throws where no socket is made, and goes through a null pointer where the host is not resolved;
  -- Disconnect, unless the device is Disconnected, SendDescriptor and RequestSession go through a null
  -- pointer where there is no connection; SetSession and Status throw on data of another type; every
  -- other case returns.
  pub ending-request_handler :
      ending (request_handler S env rq d) ≡ expected env rq.action rq.bulk_data d
  unfolding request_handler
  ending-request_handler = ending-handle_action rq.action

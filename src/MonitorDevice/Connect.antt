-- ===== src/MonitorDevice/Connect.antt =====
-- The connection's life: `doConnect`, `doSendDescriptor`, `doDisconnect` (source/MonitorDevice.cpp)
-- and `Connection::connect` (source/Connection.cpp).
use tkmcollector.Prelude.{Bool, true, false, not, if◌then◌else◌}
use tkmcollector.Number.{to_uint16}
use tkmcollector.Defaults.{Val}
use tkmcollector.Messages.{DeviceState}
use tkmcollector.Requests.{DeviceAction, Request, reply}
use tkmcollector.Exec.{
  Env, Exec, Effect, EventSource, ◌>>=◌, ◌>>◌, pure, gets, modify, call, perform, fault,
}
use tkmcollector.MonitorDevice.{
  Device, set_connection, create_connection, delete_connection, destroy, push_request,
  require_connection, update_state, is_disconnected,
}

module _ {L : Type 0} where
  -- Connection::connect after `::connect` has failed.
  unfoldable pub await_connect : Env → Exec (Device L) Bool
  await_connect env = do
    in_progress ← call env Effect.errno_is_in_progress
    if not in_progress then pure false else do
      returned ← call env Effect.select_returned
      if not returned then pure false else do
        timed_out ← call env Effect.select_timed_out
        if timed_out then pure false else do
          exceptional ← call env Effect.fd_in_exceptions
          if exceptional then pure true else do
            known ← call env Effect.getsockopt_returned
            if not known
                then pure false
                else do failed ← call env Effect.so_error_is_set; pure (not failed)

  -- Connection::connect; `true` is its result 0, `false` its result -1.
  unfoldable pub connect : Env → Exec (Device L) Bool
  unfolding await_connect
  connect env = do
    c ← require_connection
    data' ← gets (λ d. d.device_data)
    resolved ← call env (Effect.resolve_host data'.address)
    if not resolved then fault else do
      at_once ← call env (Effect.connect_socket data'.address (to_uint16 data'.port))
      reached ← if at_once then pure true else await_connect env
      if reached
          then (do modify (set_connection (record c { prepared = true })); pure true)
          else pure false

  -- MonitorDevice::enableConnection
  unfoldable pub enable_connection : Exec (Device L) (Unit {0})
  enable_connection = do
    require_connection
    hash ← gets (λ d. d.device_data.hash)
    perform (Effect.add_event_source (EventSource.device_connection hash))

  unfoldable pub do_connect : Env → Request DeviceAction → Exec (Device L) Bool
  unfolding create_connection connect enable_connection delete_connection destroy push_request
  do_connect env rq = do
    created ← create_connection env
    if not created
        then call env (
            Effect.push_dispatcher (reply rq Val.status_error "Failed to create connection object"))
        else do
          reached ← connect env
          if not reached
              then (do
                c ← gets (λ d. d.connection)
                delete_connection
                destroy c
                call env (Effect.push_dispatcher (reply rq Val.status_error "Connection Failed")))
              else do
                enable_connection
                push_request env (record rq { action = DeviceAction.send_descriptor })

  unfoldable pub do_send_descriptor : Env → Request DeviceAction → Exec (Device L) Bool
  unfolding update_state
  do_send_descriptor env rq = do
    require_connection
    hash ← gets (λ d. d.device_data.hash)
    sent ← call env (Effect.send_descriptor hash)
    if not sent
        then call env
            (Effect.push_dispatcher (reply rq Val.status_error "Failed to send descriptor"))
        else do
          update_state DeviceState.connected
          call env (Effect.push_dispatcher (reply rq Val.status_okay "Connected"))

  unfoldable pub do_disconnect : Env → Request DeviceAction → Exec (Device L) Bool
  do_disconnect env rq = do
    data' ← gets (λ d. d.device_data)
    if not (is_disconnected data'.state)
        then (do
          require_connection
          perform (Effect.rem_event_source (EventSource.device_connection data'.hash))
          call env (Effect.push_dispatcher (reply rq Val.status_okay "Device disconnected")))
        else call env (Effect.push_dispatcher (reply rq Val.status_error "Device not connected"))

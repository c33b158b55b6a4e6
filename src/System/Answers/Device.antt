-- ===== src/System/Answers/Device.antt =====
-- A device passes on the answer that it owes (source/MonitorDevice.cpp).
use tkmcollector.Prelude.{arith}
use tkmcollector.SafeList.{SafeList}
use tkmcollector.Requests.{Client, DeviceAction, Request}
use tkmcollector.Exec.{Env}
use tkmcollector.MonitorDevice.{Device}
use tkmcollector.MonitorDevice.DataSource.{DataSource}
use tkmcollector.MonitorDevice.Connect.{do_connect, do_send_descriptor, do_disconnect}
use tkmcollector.MonitorDevice.Collect.{
  do_start_collecting, do_stop_collecting, do_request_session, do_set_session, do_process_data,
  do_status, do_start_stream, do_stop_stream, handle_action, request_handler,
}
use tkmcollector.System.Answers.{Settles, device_owes, owed-none}

module _ (D : SafeList DataSource) (c : Client) (env : Env) (rq : Request DeviceAction)
    (d : Device D.Carrier) where
  handle_action-Settles :
      (a : DeviceAction) → Settles c (device_owes c a rq.client) (handle_action D env rq a d)
  unfolding handle_action do_connect do_send_descriptor do_disconnect do_start_collecting
      do_stop_collecting do_request_session do_set_session do_process_data do_status do_start_stream
      do_stop_stream
  handle_action-Settles DeviceAction.connect = ground (arith, owed-none c)
  handle_action-Settles DeviceAction.status = ground (arith, owed-none c)
  handle_action-Settles _ = ground (arith, owed-none c)

  pub device-Settles : Settles c (device_owes c rq.action rq.client) (request_handler D env rq d)
  unfolding request_handler
  device-Settles = handle_action-Settles rq.action

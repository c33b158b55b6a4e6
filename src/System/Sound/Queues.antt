-- ===== src/System/Sound/Queues.antt =====
-- The dispatcher and the devices pass sound requests on as sound ones (source/Dispatcher.cpp,
-- source/MonitorDevice.cpp).
use tkmcollector.Prelude.{ℕ, ◌≡◌, refl, arith}
use tkmcollector.Outcome.{ending, returns}
use tkmcollector.SafeList.{SafeList}
use tkmcollector.Requests.{BulkData, DeviceAction, DispatcherAction, Request}
use tkmcollector.Exec.{Env}
use tkmcollector.Dispatcher.{
  do_send_status, do_connect_device, do_disconnect_device, do_start_collecting, do_stop_collecting,
  do_init_database, do_get_devices, do_get_sessions, do_remove_session, do_add_device,
  do_remove_device, do_quit_collector, do_quit,
}
use tkmcollector.Dispatcher
use tkmcollector.DeviceManager.{Manager}
use tkmcollector.MonitorDevice.{Device}
use tkmcollector.MonitorDevice.DataSource.{DataSource}
use tkmcollector.MonitorDevice.Connect.{do_connect, do_send_descriptor, do_disconnect}
use tkmcollector.MonitorDevice.Collect as Device
use tkmcollector.System.Measure.{Costs, pushed}
use tkmcollector.System.Sound.{device_expected, dispatch_expected, fault_of, faults}

module _ {L : Type 0} (S : SafeList ℕ) (env : Env) (rq : Request DispatcherAction)
    (m : Manager L S.Carrier) where
  dispatch_sound :
      (a : DispatcherAction) (b : BulkData)
      → rq.bulk_data ≡ b
      → fault_of (dispatch_expected a rq.client b rq.args) ≡ 0
      → Costs (pushed faults) 0 (Dispatcher.handle_action S env rq a m)
        × (ending (Dispatcher.handle_action S env rq a m) ≡ returns)
  unfolding Dispatcher.handle_action do_init_database do_get_devices do_get_sessions
      do_remove_session do_add_device do_remove_device do_connect_device do_disconnect_device
      do_start_collecting do_stop_collecting do_send_status do_quit_collector do_quit
  dispatch_sound DispatcherAction.connect_device (BulkData.device_data d) e h = ground arith
  dispatch_sound _ b e h = ground arith

  -- A sound request is handled, and what is passed on is sound.
  pub dispatcher_sound :
      fault_of (dispatch_expected rq.action rq.client rq.bulk_data rq.args) ≡ 0
      → Costs (pushed faults) 0 (Dispatcher.request_handler S env rq m)
        × (ending (Dispatcher.request_handler S env rq m) ≡ returns)
  unfolding Dispatcher.request_handler
  dispatcher_sound = dispatch_sound rq.action rq.bulk_data refl

module _ (D : SafeList DataSource) (env : Env) (rq : Request DeviceAction)
    (d : Device D.Carrier) where
  serve_sound :
      (a : DeviceAction) (b : BulkData)
      → rq.bulk_data ≡ b
      → fault_of (device_expected a b) ≡ 0
      → Costs (pushed faults) 0 (Device.handle_action D env rq a d)
  unfolding Device.handle_action do_connect do_send_descriptor do_disconnect
      Device.do_start_collecting Device.do_stop_collecting Device.do_request_session
      Device.do_set_session Device.do_process_data Device.do_status Device.do_start_stream
      Device.do_stop_stream
  serve_sound DeviceAction.connect b e h = ground arith
  serve_sound _ b e h = ground arith

  pub device_sound :
      fault_of (device_expected rq.action rq.bulk_data) ≡ 0
      → Costs (pushed faults) 0 (Device.request_handler D env rq d)
  unfolding Device.request_handler
  device_sound = serve_sound rq.action rq.bulk_data refl

-- ===== src/System/Answers/Dispatcher.antt =====
-- The dispatcher passes on the answer that it owes, or sends it (source/Dispatcher.cpp).
use tkmcollector.Prelude.{ℕ, arith}
use tkmcollector.SafeList.{SafeList}
use tkmcollector.Requests.{Client, DispatcherAction, Request}
use tkmcollector.Exec.{Env}
use tkmcollector.DeviceManager.{Manager}
use tkmcollector.Dispatcher.{
  do_send_status, do_connect_device, do_disconnect_device, do_start_collecting, do_stop_collecting,
  do_init_database, do_get_devices, do_get_sessions, do_remove_session, do_add_device,
  do_remove_device, do_quit_collector, do_quit, handle_action, request_handler,
}
use tkmcollector.System.Answers.{Settles, dispatcher_owes, owed-none}

module _ {L : Type 0} (S : SafeList ℕ) (c : Client) (env : Env) (rq : Request DispatcherAction)
    (m : Manager L S.Carrier) where
  handle_action-Settles :
      (a : DispatcherAction)
      → Settles c (dispatcher_owes c a rq.client) (handle_action S env rq a m)
  unfolding handle_action do_init_database do_get_devices do_get_sessions do_remove_session
      do_add_device do_remove_device do_connect_device do_disconnect_device do_start_collecting
      do_stop_collecting do_send_status do_quit_collector do_quit
  handle_action-Settles DispatcherAction.send_status = ground (arith, owed-none c)
  handle_action-Settles DispatcherAction.connect_device = ground (arith, owed-none c)
  handle_action-Settles _ = ground (arith, owed-none c)

  pub dispatcher-Settles :
      Settles c (dispatcher_owes c rq.action rq.client) (request_handler S env rq m)
  unfolding request_handler
  dispatcher-Settles = handle_action-Settles rq.action

-- ===== src/System/Drain.antt =====
-- How much work a request makes: what its handlers, and the handlers of what they push, come to.
pub mod Sqlite
pub mod Postgres
pub mod Ends
use tkmcollector.Prelude.{ℕ, ◌+◌, ◌<◌, ◌≡◌, arith, String, List}
use tkmcollector.Outcome.{Outcome, Ensures}
use tkmcollector.SafeList.{SafeList}
use tkmcollector.Requests.{DatabaseAction, DeviceAction, DispatcherAction, Request}
use tkmcollector.Exec.{Effect, Env}
use tkmcollector.Database.{State}
use tkmcollector.Dispatcher.{
  do_send_status, do_connect_device, do_disconnect_device, do_start_collecting, do_stop_collecting,
  do_init_database, do_get_devices, do_get_sessions, do_remove_session, do_add_device,
  do_remove_device, do_quit_collector, do_quit,
}
use tkmcollector.Dispatcher
use tkmcollector.DeviceManager.{Manager}
use tkmcollector.MonitorDevice.{Device, end_session_request}
use tkmcollector.MonitorDevice.DataSource.{DataSource}
use tkmcollector.MonitorDevice.Connect.{do_connect, do_send_descriptor, do_disconnect}
use tkmcollector.MonitorDevice.Collect as Device
use tkmcollector.System.{DatabaseHandler}
use tkmcollector.System.Measure.{Costs, Measure, pushed, sum}
use tkmcollector.System.Loops.{IsBlind}

-- One for the request itself, and the effort of what its handler pushes; for CleanSessions without
-- the sessions that it ends.
abbrev pub database_effort : DatabaseAction → ℕ
database_effort DatabaseAction.init_database = 2
database_effort DatabaseAction.get_devices = 2
database_effort DatabaseAction.add_device = 3
database_effort DatabaseAction.remove_device = 2
database_effort DatabaseAction.get_sessions = 2
database_effort DatabaseAction.rem_session = 2
database_effort _ = 1

abbrev pub device_effort : DeviceAction → ℕ
device_effort DeviceAction.connect = 3
device_effort DeviceAction.disconnect = 2
device_effort DeviceAction.send_descriptor = 2
device_effort DeviceAction.set_session = 3
device_effort DeviceAction.start_collecting = 3
device_effort DeviceAction.stop_collecting = 3
device_effort DeviceAction.process_data = 2
device_effort _ = 1

abbrev pub dispatcher_effort : DispatcherAction → ℕ
dispatcher_effort DispatcherAction.send_status = 1
dispatcher_effort DispatcherAction.quit = 1
dispatcher_effort DispatcherAction.quit_collector = 2
dispatcher_effort DispatcherAction.add_device = 4
dispatcher_effort DispatcherAction.connect_device = 4
dispatcher_effort DispatcherAction.start_collecting = 4
dispatcher_effort DispatcherAction.stop_collecting = 4
dispatcher_effort _ = 3

abbrev pub effort : Measure
effort = record {
  dispatcher = λ rq. dispatcher_effort rq.action;
  database = λ rq. database_effort rq.action;
  device = λ rq. device_effort rq.action;
}

-- CleanSessions ends as many sessions as the database has open.
abbrev pub is_clean : DatabaseAction → ℕ
is_clean DatabaseAction.clean_sessions = 1
is_clean _ = 0

abbrev pub cleans : Measure
cleans = record { dispatcher = λ rq. 0; database = λ rq. is_clean rq.action; device = λ rq. 0 }

-- A run that returns pushes no CleanSessions, and requests of less effort than `n`.
abbrev pub Eases : {A S : Type 0} → ℕ → Outcome (A × S × List Effect) → Type 0
Eases n = Ensures λ (_, _, es). (sum (pushed cleans) es ≡ 0) × (sum (pushed effort) es < n)

-- CleanSessions pushes no CleanSessions; every other action pushes less than it came to.
abbrev pub EasesFor : {A S : Type 0} → DatabaseAction → Outcome (A × S × List Effect) → Type 0
EasesFor DatabaseAction.clean_sessions = Costs (pushed cleans) 0
EasesFor a = Eases (database_effort a)

pub pushed-IsBlind : (m : Measure) → IsBlind (pushed m)
pushed-IsBlind m = record { no_query = λ sql. omega arith; no_source = λ x. omega arith }

pub cleans_end :
    (hash : String) → pushed cleans (Effect.push_database (end_session_request hash)) ≡ 0
cleans_end hash = omega arith

-- A run that pushes nothing.
pub Eases-of_nothing :
    {A S : Type 0} (n : ℕ) (o : Outcome (A × S × List Effect))
    → Costs (pushed cleans) 0 o
    → Costs (pushed effort) 0 o
    → Eases (1 + n) o
Eases-of_nothing n (Outcome.ok (a, s, es)) h k = (h, omega arith)
Eases-of_nothing n (Outcome.throws x) h k = tt
Eases-of_nothing n Outcome.null_pointer h k = tt

module _ {L : Type 0} (S : SafeList ℕ) (env : Env) (rq : Request DispatcherAction)
    (m : Manager L S.Carrier) where
  dispatch-Eases :
      (a : DispatcherAction) → Eases (dispatcher_effort a) (Dispatcher.handle_action S env rq a m)
  unfolding Dispatcher.handle_action do_init_database do_get_devices do_get_sessions
      do_remove_session do_add_device do_remove_device do_connect_device do_disconnect_device
      do_start_collecting do_stop_collecting do_send_status do_quit_collector do_quit
  dispatch-Eases DispatcherAction.connect_device = ground arith
  dispatch-Eases _ = ground arith

  pub dispatcher-Eases : Eases (dispatcher_effort rq.action) (Dispatcher.request_handler S env rq m)
  unfolding Dispatcher.request_handler
  dispatcher-Eases = dispatch-Eases rq.action

module _ (D : SafeList DataSource) (env : Env) (rq : Request DeviceAction)
    (d : Device D.Carrier) where
  serve-Eases : (a : DeviceAction) → Eases (device_effort a) (Device.handle_action D env rq a d)
  unfolding Device.handle_action do_connect do_send_descriptor do_disconnect
      Device.do_start_collecting Device.do_stop_collecting Device.do_request_session
      Device.do_set_session Device.do_process_data Device.do_status Device.do_start_stream
      Device.do_stop_stream
  serve-Eases DeviceAction.connect = ground arith
  serve-Eases _ = ground arith

  pub device-Eases : Eases (device_effort rq.action) (Device.request_handler D env rq d)
  unfolding Device.request_handler
  device-Eases = serve-Eases rq.action

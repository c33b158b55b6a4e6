-- ===== src/System/Sound.antt =====
-- Requests whose handlers find what they read: a client, data of the right type, and arguments
-- (source/Dispatcher.cpp, source/MonitorDevice.cpp, source/SQLiteDatabase.cpp, source/PQDatabase.cpp).
pub mod Outside
pub mod Queues
pub mod Reach
pub mod Progress
pub mod Sqlite
pub mod Postgres
use tkmcollector.Prelude.{ℕ, Bool, true, false, String, ◌≡◌, arith, Option, none, some}
use tkmcollector.Outcome.{Ending, returns, raises, crashes}
use tkmcollector.Defaults.{Arg}
use tkmcollector.Defaults.Args.{Args, count}
use tkmcollector.Requests.{BulkData, Client, DatabaseAction, DeviceAction, DispatcherAction}
use tkmcollector.Exec.{Effect}
use tkmcollector.MonitorDevice.{end_session_request}
use tkmcollector.Database.Requests.{expected, is_device, is_info, is_monitor_data, when}
use tkmcollector.System.Loops.{IsBlind}
use tkmcollector.System.Measure.{Measure, pushed}

abbrev is_monitor_status : BulkData → Bool
is_monitor_status (BulkData.monitor_status x) = true
is_monitor_status _ = false

abbrev status_ending : Option Client → Args → Ending
status_ending none args = returns
status_ending (some c) args = when (count Arg.status args)

-- How the handling of a request ends in the dispatcher, or else in the database that gets it.
abbrev pub dispatch_expected : DispatcherAction → Option Client → BulkData → Args → Ending
dispatch_expected DispatcherAction.get_devices c b args =
    expected DatabaseAction.get_devices c b args
dispatch_expected DispatcherAction.get_sessions c b args =
    expected DatabaseAction.get_sessions c b args
dispatch_expected DispatcherAction.remove_session c b args =
    expected DatabaseAction.rem_session c b args
dispatch_expected DispatcherAction.add_device c b args = expected DatabaseAction.add_device c b args
dispatch_expected DispatcherAction.remove_device c b args =
    expected DatabaseAction.remove_device c b args
dispatch_expected DispatcherAction.connect_device c b args = when (is_device b)
dispatch_expected DispatcherAction.disconnect_device c b args = when (is_device b)
dispatch_expected DispatcherAction.start_collecting c b args = when (is_device b)
dispatch_expected DispatcherAction.stop_collecting c b args = when (is_device b)
dispatch_expected DispatcherAction.send_status c b args = status_ending c args
dispatch_expected _ c b args = returns

-- How a device's reading of a request's data ends.
abbrev pub device_expected : DeviceAction → BulkData → Ending
device_expected DeviceAction.set_session b = when (is_info b)
device_expected DeviceAction.process_data b = when (is_monitor_data b)
device_expected DeviceAction.status b = when (is_monitor_status b)
device_expected _ b = returns

abbrev pub fault_of : Ending → ℕ
fault_of returns = 0
fault_of raises = 1
fault_of crashes = 1

-- The requests that would throw or go through a null pointer.
abbrev pub faults : Measure
faults = record {
  dispatcher = λ rq. fault_of (dispatch_expected rq.action rq.client rq.bulk_data rq.args);
  database = λ rq. fault_of (expected rq.action rq.client rq.bulk_data rq.args);
  device = λ rq. fault_of (device_expected rq.action rq.bulk_data);
}

pub faults-IsBlind : IsBlind (pushed faults)
faults-IsBlind = record { no_query = λ sql. omega arith; no_source = λ x. omega arith }

pub faults_end :
    (hash : String) → pushed faults (Effect.push_database (end_session_request hash)) ≡ 0
faults_end hash = omega arith

pub returns_of-fault_of : (e : Ending) → fault_of e ≡ 0 → e ≡ returns
returns_of-fault_of returns h = cc
returns_of-fault_of raises h = absurd (omega arith)
returns_of-fault_of crashes h = absurd (omega arith)

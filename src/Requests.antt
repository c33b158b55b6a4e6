-- ===== src/Requests.antt =====
-- source/Dispatcher.h, source/IDatabase.h, source/IDevice.h: the actions and the requests that the
-- three queues carry.
pub mod Reply
use tkmcollector.Prelude.{ℕ, String, Option, none, []}
use tkmcollector.Outcome.{Outcome, ok, throws, bad_any_cast}
use tkmcollector.Defaults.{Arg, Val, val_for}
use tkmcollector.Defaults.Args.{Args, copy_arg, emplace}
use tkmcollector.Messages.{Data, DeviceData, MonitorStatus, SessionData, SessionInfo}

-- `std::any bulkData`; `int` is the `0` of a request without data.
pub data BulkData : Type 0 where
  int : ℕ → BulkData
  device_data : DeviceData → BulkData
  session_data : SessionData → BulkData
  session_info : SessionInfo → BulkData
  monitor_data : Data → BulkData
  monitor_status : MonitorStatus → BulkData

-- A control client, by its file descriptor.
abbrev pub Client : Type 0
Client = ℕ

-- The structs `Request` of the three classes have the same fields; `client` may be null.
pub record Request (Action : Type 0) : Type 0 where
  pub client : Option Client
  pub action : Action
  pub args : Args
  pub bulk_data : BulkData

-- Dispatcher::Action
pub data DispatcherAction : Type 0 where
  init_database quit_collector get_devices get_sessions remove_session : DispatcherAction
  add_device remove_device connect_device disconnect_device : DispatcherAction
  start_collecting stop_collecting send_status quit : DispatcherAction

-- IDatabase::Action
pub data DatabaseAction : Type 0 where
  check_database init_database connect disconnect get_devices add_device : DatabaseAction
  remove_device load_devices get_sessions add_session rem_session : DatabaseAction
  end_session clean_sessions add_data : DatabaseAction

-- IDevice::Action
pub data DeviceAction : Type 0 where
  connect disconnect send_descriptor request_session set_session : DeviceAction
  start_collecting stop_collecting start_stream stop_stream : DeviceAction
  process_data status : DeviceAction

-- `any_cast` throws where the value is of another type.
abbrev pub as_device_data : BulkData → Outcome DeviceData
as_device_data (BulkData.device_data d) = ok d
as_device_data _ = throws bad_any_cast

abbrev pub as_session_data : BulkData → Outcome SessionData
as_session_data (BulkData.session_data d) = ok d
as_session_data _ = throws bad_any_cast

abbrev pub as_session_info : BulkData → Outcome SessionInfo
as_session_info (BulkData.session_info d) = ok d
as_session_info _ = throws bad_any_cast

abbrev pub as_monitor_data : BulkData → Outcome Data
as_monitor_data (BulkData.monitor_data d) = ok d
as_monitor_data _ = throws bad_any_cast

abbrev pub as_monitor_status : BulkData → Outcome MonitorStatus
as_monitor_status (BulkData.monitor_status d) = ok d
as_monitor_status _ = throws bad_any_cast

-- A request without client, arguments or data.
abbrev pub plain_request : {Action : Type 0} → Action → Request Action
plain_request action = record {
  client = none;
  action = action;
  args = [];
  bulk_data = BulkData.int 0;
}

-- The SendStatus request to a request's client that most handlers fill in step by step: first its
-- arguments with the request's id alone, then with a status and a reason.
abbrev pub reply_args : {Action : Type 0} → Request Action → Args
reply_args rq = copy_arg Arg.request_id rq.args []

abbrev pub reply_with : {Action : Type 0} → Request Action → Args → Request DispatcherAction
reply_with rq args = record {
  client = rq.client;
  action = DispatcherAction.send_status;
  args = args;
  bulk_data = BulkData.int 0;
}

abbrev pub reply : {Action : Type 0} → Request Action → Val → String → Request DispatcherAction
reply rq outcome text =
    reply_with rq (emplace Arg.reason text (emplace Arg.status (val_for outcome) (reply_args rq)))

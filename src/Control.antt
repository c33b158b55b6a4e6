-- ===== src/Control.antt =====
-- The control tool (control/): its queue's requests, its state, and its calls of the surroundings.
pub mod Main
pub mod Command
pub mod Dispatcher
pub mod Connection
pub mod Trace
use tkmcollector.Prelude.{ℕ, String, Bool, Option, List}
use tkmcollector.Defaults.Args.{Args}
use tkmcollector.Messages.{DeviceData, SessionData, Recipient, StatusWhat}
use tkmcollector.Run.{Run}
use tkmcollector.ControlClient.{ControlRequest, RequestType}

-- Dispatcher::Action of control/Dispatcher.h
pub data Action : Type 0 where
  connect send_descriptor request_session set_session init_database quit_collector : Action
  get_devices get_sessions remove_session add_device remove_device : Action
  connect_device disconnect_device start_collecting stop_collecting : Action
  collector_status device_list session_list quit : Action

-- msg::control::Status as it is received, where a field that was not set has its default.
pub record CollectorStatus : Type 0 where
  pub request_id : String
  pub what : StatusWhat
  pub reason : String

-- `std::any bulkData`; `int` is the `0` of a request without data, `empty` one that was not set. A
-- msg::control::SessionInfo is its id.
pub data BulkData : Type 0 where
  empty : BulkData
  int : ℕ → BulkData
  session_info : String → BulkData
  status : CollectorStatus → BulkData
  device_list : List DeviceData → BulkData
  session_list : List SessionData → BulkData

-- Dispatcher::Request of control/Dispatcher.h
pub record Request : Type 0 where
  pub action : Action
  pub bulk_data : BulkData
  pub args : Args

-- Command::Action
pub data CommandAction : Type 0 where
  init_database quit_collector get_devices get_sessions remove_session : CommandAction
  add_device remove_device connect_device disconnect_device : CommandAction
  start_collecting stop_collecting quit : CommandAction

-- Command::Request
pub record CommandRequest : Type 0 where
  pub action : CommandAction
  pub args : Args

-- What `PackFrom` puts into a request's data.
pub data Packed : Type 0 where
  nothing : Packed
  session_info : String → Packed
  device_data : DeviceData → Packed
  session_data : SessionData → Packed

-- An envelope with a control request.
pub record Outgoing : Type 0 where
  pub target : Recipient
  pub origin : Recipient
  pub request : ControlRequest Packed

pub data Call : Type 0 where
  push : Request → Call
  socket_exists : (directory name : String) → Call
  connect_socket : Call
  send_descriptor : Call
  send : Outgoing → Call
  flush : Call
  trigger_command : Call
  print : String → Call
  exit_success : Call

-- The session's id, and whether the connection is polled.
pub record Tool : Type 0 where
  pub session : String
  pub is_polled : Bool

abbrev pub Step : Type 0 → Type 0
Step = Run Call Tool

abbrev pub Answers : Type 0
Answers = Call → Bool

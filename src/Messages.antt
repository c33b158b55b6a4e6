-- ===== src/Messages.antt =====
-- The messages of libtaskmonitor that the collector reads and writes (taskmonitor/taskmonitor.h),
-- with the fields and values that the source names. A field that the code may leave unset is an
-- `Option`.
pub mod Process
pub mod System
pub mod Kernel
pub mod Payload
use tkmcollector.Prelude.{ℕ, String, Option, List}
use tkmcollector.Number.{ℤ, pos}

-- msg::control::DeviceData_State
pub data DeviceState : Type 0 where
  unknown loaded connected session_set collecting idle disconnected reconnecting : DeviceState

-- msg::control::DeviceData
pub record DeviceData : Type 0 where
  pub hash : String
  pub name : String
  pub address : String
  pub port : ℤ
  pub state : DeviceState

-- msg::control::SessionData_State
pub data SessionState : Type 0 where
  unknown progress complete : SessionState

-- msg::control::SessionData
pub record SessionData : Type 0 where
  pub hash : String
  pub name : String
  pub started : ℕ
  pub ended : ℕ
  pub state : SessionState

-- A message as it is made, with its state still unset.
abbrev pub no_device : DeviceData
no_device = record { hash = ""; name = ""; address = ""; port = pos 0; state = DeviceState.unknown }

abbrev pub no_session : SessionData
no_session = record { hash = ""; name = ""; started = 0; ended = 0; state = SessionState.unknown }

-- msg::monitor::SessionInfo_DataSource; `other` is a value that the source does not name.
pub data DataSourceType : Type 0 where
  proc_info proc_acct proc_event context_info sys_proc_stat sys_proc_buddy_info : DataSourceType
  sys_proc_wireless sys_proc_mem_info sys_proc_pressure sys_proc_disk_stats : DataSourceType
  other : ℕ → DataSourceType

-- msg::monitor::SessionInfo
pub record SessionInfo : Type 0 where
  pub hash : String
  pub name : String
  pub core_count : ℕ
  pub fast_lane_interval : ℕ
  pub pace_lane_interval : ℕ
  pub slow_lane_interval : ℕ
  pub fast_lane_sources : List DataSourceType
  pub pace_lane_sources : List DataSourceType
  pub slow_lane_sources : List DataSourceType

-- msg::collector::Request_Type
pub data RequestType : Type 0 where
  create_session get_proc_acct get_proc_info get_context_info get_proc_event_stats : RequestType
  get_sys_proc_stat get_sys_proc_buddy_info get_sys_proc_wireless : RequestType
  get_sys_proc_mem_info get_sys_proc_disk_stats get_sys_proc_pressure : RequestType

-- msg::monitor::Data_What; `other` is a value that the source does not name.
pub data DataWhat : Type 0 where
  proc_event proc_acct proc_info context_info sys_proc_stat sys_proc_buddy_info : DataWhat
  sys_proc_wireless sys_proc_mem_info sys_proc_pressure sys_proc_disk_stats : DataWhat
  sys_proc_vm_stat : DataWhat
  other : ℕ → DataWhat

-- msg::monitor::Data; the payload is kept as the text that it was received as.
pub record Data : Type 0 where
  pub what : DataWhat
  pub payload : String
  pub system_time_sec : ℕ
  pub monotonic_time_sec : ℕ
  pub receive_time_sec : ℕ

-- msg::monitor::Status_What and msg::control::Status_What
pub data StatusWhat : Type 0 where
  okay busy error : StatusWhat

-- msg::monitor::Status
pub record MonitorStatus : Type 0 where
  pub request_id : String
  pub what : StatusWhat
  pub reason : String

-- msg::control::Status
pub record Status : Type 0 where
  pub request_id : Option String
  pub what : Option StatusWhat
  pub reason : Option String

-- msg::Envelope_Recipient
pub data Recipient : Type 0 where
  any collector monitor control : Recipient

-- What `PackFrom` put into an envelope.
pub data Mesg : Type 0 where
  collector_request : String → RequestType → Mesg
  control_status : Status → Mesg
  control_set_session : String → Mesg
  device_list : List DeviceData → Mesg
  session_list : List SessionData → Mesg

-- msg::Envelope
pub record Envelope : Type 0 where
  pub mesg : Mesg
  pub target : Recipient
  pub origin : Recipient

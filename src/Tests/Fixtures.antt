-- ===== src/Tests/Fixtures.antt =====
-- Concrete devices, requests and surroundings.
use tkmcollector.Prelude.{
  ℕ, String, ◌≡◌, refl, Bool, true, false, none, some, List, [], ◌∷◌, ◌&&◌, arith, nat_eq, str_eq,
  eq_refl,
}
use tkmcollector.Number.{pos}
use tkmcollector.Defaults.{Arg}
use tkmcollector.Defaults.Args.{emplace}
use tkmcollector.Messages.{
  DataSourceType, DeviceData, DeviceState, Mesg, SessionData, SessionInfo, SessionState,
}
use tkmcollector.Requests.{BulkData, DatabaseAction, DeviceAction, DispatcherAction, Request}
use tkmcollector.SafeList.{SafeList, IsLawful}
use tkmcollector.Exec.{Env, Effect, UpdateLane}
use tkmcollector.MonitorDevice.{Device}
use tkmcollector.MonitorDevice.DataSource.{DataSource}
use tkmcollector.Tests.PlainList.{plain, plain-IsLawful}

lane_number : UpdateLane → ℕ
lane_number UpdateLane.fast = 0
lane_number UpdateLane.pace = 1
lane_number UpdateLane.slow = 2
lane_number UpdateLane.any = 3

callback_name : DataSource → String
callback_name x = elim x.callback [
  | none ↦ ""
  | some e ↦ (elim e.mesg [ Mesg.collector_request id type ↦ id | _ ↦ "" ])
]

abbrev pub same_source : DataSource → DataSource → Bool
unfolding lane_number callback_name
same_source x y =
    nat_eq (lane_number x.lane) (lane_number y.lane) && str_eq (callback_name x) (callback_name y)

pub nat_eq_refl : (n : ℕ) → nat_eq n n ≡ true
nat_eq_refl n = ground arith

pub same_source_refl : (x : DataSource) → same_source x x ≡ true
unfolding same_source
same_source_refl x = rw (nat_eq_refl (lane_number x.lane), eq_refl (callback_name x)) refl

abbrev pub source_list : SafeList DataSource
source_list = plain same_source same_source_refl

abbrev pub source_list-IsLawful : IsLawful source_list
source_list-IsLawful = plain-IsLawful same_source same_source_refl

abbrev pub device_list : SafeList ℕ
device_list = plain nat_eq nat_eq_refl

abbrev pub device_list-IsLawful : IsLawful device_list
device_list-IsLawful = plain-IsLawful nat_eq nat_eq_refl

-- Surroundings in which every call succeeds, and ones that refuse connections.
abbrev pub willing : Env
willing e = true

abbrev pub refusing : Env
refusing (Effect.connect_socket a p) = false
refusing Effect.errno_is_in_progress = false
refusing e = true

abbrev pub board : DeviceData
board = record {
  hash = "d1";
  name = "board";
  address = "10.0.0.2";
  port = pos 3357;
  state = DeviceState.connected;
}

abbrev pub session : SessionInfo
session = record {
  hash = "s1";
  name = "Collector.1.2";
  core_count = 4;
  fast_lane_interval = 1000;
  pace_lane_interval = 5000;
  slow_lane_interval = 10000;
  fast_lane_sources = DataSourceType.proc_acct ∷ DataSourceType.other 99 ∷ [];
  pace_lane_sources = DataSourceType.sys_proc_stat ∷ [];
  slow_lane_sources = [];
}

abbrev pub old_session : SessionData
old_session = record {
  hash = "s0";
  name = "Collector.1.1";
  started = 10;
  ended = 0;
  state = SessionState.progress;
}

-- The board with a session; connected, and after it has lost its connection.
abbrev pub linked : Device (List DataSource)
linked = record {
  device_data = board;
  session_hash = "s1";
  session_info = session;
  data_sources = [];
  connection = some (record { is_open = true; prepared = true });
  fast_lane_timer = false;
  pace_lane_timer = false;
  slow_lane_timer = false;
}

abbrev pub dropped : Device (List DataSource)
dropped = record linked { connection = none }

abbrev pub device_request : DeviceAction → Request DeviceAction
device_request a = record {
  client = some 7;
  action = a;
  args = emplace Arg.request_id "r1" [];
  bulk_data = BulkData.device_data board;
}

abbrev pub dispatcher_request : DispatcherAction → Request DispatcherAction
dispatcher_request a = record {
  client = some 7;
  action = a;
  args = emplace Arg.request_id "r1" [];
  bulk_data = BulkData.device_data board;
}

abbrev pub database_request : DatabaseAction → BulkData → Request DatabaseAction
database_request a b = record {
  client = some 7;
  action = a;
  args = emplace Arg.request_id "r1" [];
  bulk_data = b;
}

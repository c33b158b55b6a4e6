-- ===== src/MonitorDevice/DataSource.antt =====
-- source/DataSource.h, and the callbacks and the three switches of `configUpdateLanes`
-- (source/MonitorDevice.cpp): which request a data source sends.
use tkmcollector.Prelude.{String, Bool, true, false, Option, none, some}
use tkmcollector.Messages.{DataSourceType, Envelope, Mesg, Recipient, RequestType}
use tkmcollector.Exec.{UpdateLane}

-- `m_callback` as the request that it writes; the name is only logged.
pub record DataSource : Type 0 where
  pub lane : UpdateLane
  pub callback : Option Envelope

abbrev pub collector_envelope : String → RequestType → Envelope
collector_envelope id type = record {
  mesg = Mesg.collector_request id type;
  target = Recipient.monitor;
  origin = Recipient.collector;
}

-- The ten callbacks, by the source that a case of the switches gives them to.
unfoldable pub update_callback : DataSourceType → Option Envelope
update_callback DataSourceType.proc_acct =
    some (collector_envelope "GetProcAcct" RequestType.get_proc_acct)
update_callback DataSourceType.proc_info =
    some (collector_envelope "GetProcInfo" RequestType.get_proc_info)
update_callback DataSourceType.context_info =
    some (collector_envelope "GetContextInfo" RequestType.get_context_info)
update_callback DataSourceType.proc_event =
    some (collector_envelope "GetProcEvent" RequestType.get_proc_event_stats)
update_callback DataSourceType.sys_proc_stat =
    some (collector_envelope "GetSysProcStat" RequestType.get_sys_proc_stat)
update_callback DataSourceType.sys_proc_buddy_info =
    some (collector_envelope "GetSysBuddyInfo" RequestType.get_sys_proc_buddy_info)
update_callback DataSourceType.sys_proc_wireless =
    some (collector_envelope "GetSysProcWireless" RequestType.get_sys_proc_wireless)
update_callback DataSourceType.sys_proc_mem_info =
    some (collector_envelope "GetSysProcMemInfo" RequestType.get_sys_proc_mem_info)
update_callback DataSourceType.sys_proc_disk_stats =
    some (collector_envelope "GetSysProcDiskStats" RequestType.get_sys_proc_disk_stats)
update_callback DataSourceType.sys_proc_pressure =
    some (collector_envelope "GetSysProcPressure" RequestType.get_sys_proc_pressure)
update_callback (DataSourceType.other n) = none

-- A lane's switch: the data source of a known type, none for the default case.
unfoldable pub data_source : UpdateLane → DataSourceType → Option DataSource
data_source lane type = elim (update_callback type) [
  | none ↦ none
  | some e ↦ some (record { lane = lane; callback = some e })
]

-- The test of a lane's timer: `getUpdateLane() == lane || getUpdateLane() == Any`.
unfoldable pub serves : UpdateLane → DataSource → Bool
serves lane entry = elim entry.lane [
  | UpdateLane.any ↦ true
  | UpdateLane.fast ↦ (elim lane [ UpdateLane.fast ↦ true | _ ↦ false ])
  | UpdateLane.pace ↦ (elim lane [ UpdateLane.pace ↦ true | _ ↦ false ])
  | UpdateLane.slow ↦ (elim lane [ UpdateLane.slow ↦ true | _ ↦ false ])
]

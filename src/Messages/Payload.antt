-- ===== src/Messages/Payload.antt =====
-- The payload of a msg::monitor::Data, as the switches of `doAddData` (source/SQLiteDatabase.cpp,
-- source/PQDatabase.cpp) unpack it.
use tkmcollector.Prelude.{String, Option, none, some}
use tkmcollector.Messages.{DataWhat}
use tkmcollector.Messages.Process.{ProcEvent, ProcAcct, ProcInfo, ContextInfo}
use tkmcollector.Messages.System.{SysProcStat, SysProcMemInfo, SysProcDiskStats, SysProcPressure}
use tkmcollector.Messages.Kernel.{SysProcBuddyInfo, SysProcWireless, SysProcVmStat}

pub data Payload : Type 0 where
  proc_event : ProcEvent → Payload
  proc_acct : ProcAcct → Payload
  proc_info : ProcInfo → Payload
  context_info : ContextInfo → Payload
  sys_proc_stat : SysProcStat → Payload
  sys_proc_buddy_info : SysProcBuddyInfo → Payload
  sys_proc_wireless : SysProcWireless → Payload
  sys_proc_mem_info : SysProcMemInfo → Payload
  sys_proc_pressure : SysProcPressure → Payload
  sys_proc_disk_stats : SysProcDiskStats → Payload
  sys_proc_vm_stat : SysProcVmStat → Payload

-- `UnpackTo` of protobuf, for the messages that a msg::monitor::Data carries.
pub record UnpackData : Type 0 where
  pub proc_event : String → ProcEvent
  pub proc_acct : String → ProcAcct
  pub proc_info : String → ProcInfo
  pub context_info : String → ContextInfo
  pub sys_proc_stat : String → SysProcStat
  pub sys_proc_buddy_info : String → SysProcBuddyInfo
  pub sys_proc_wireless : String → SysProcWireless
  pub sys_proc_mem_info : String → SysProcMemInfo
  pub sys_proc_pressure : String → SysProcPressure
  pub sys_proc_disk_stats : String → SysProcDiskStats
  pub sys_proc_vm_stat : String → SysProcVmStat

-- The switch: the default case reads nothing.
abbrev pub payload_of : UnpackData → DataWhat → String → Option Payload
payload_of u DataWhat.proc_event p = some (Payload.proc_event (u.proc_event p))
payload_of u DataWhat.proc_acct p = some (Payload.proc_acct (u.proc_acct p))
payload_of u DataWhat.proc_info p = some (Payload.proc_info (u.proc_info p))
payload_of u DataWhat.context_info p = some (Payload.context_info (u.context_info p))
payload_of u DataWhat.sys_proc_stat p = some (Payload.sys_proc_stat (u.sys_proc_stat p))
payload_of u DataWhat.sys_proc_buddy_info p =
    some (Payload.sys_proc_buddy_info (u.sys_proc_buddy_info p))
payload_of u DataWhat.sys_proc_wireless p = some (Payload.sys_proc_wireless (u.sys_proc_wireless p))
payload_of u DataWhat.sys_proc_mem_info p = some (Payload.sys_proc_mem_info (u.sys_proc_mem_info p))
payload_of u DataWhat.sys_proc_pressure p = some (Payload.sys_proc_pressure (u.sys_proc_pressure p))
payload_of u DataWhat.sys_proc_disk_stats p =
    some (Payload.sys_proc_disk_stats (u.sys_proc_disk_stats p))
payload_of u DataWhat.sys_proc_vm_stat p = some (Payload.sys_proc_vm_stat (u.sys_proc_vm_stat p))
payload_of u (DataWhat.other n) p = none

-- ===== src/Query/Columns/System.antt =====
-- The columns of the tables with the data of the system (source/Query.h).
use tkmcollector.Prelude.{String}

-- Query::SysProcStatColumn
pub data SysProcStatColumn : Type 0 where
  id system_time monotonic_time receive_time cpu_stat_name cpu_stat_all cpu_stat_usr cpu_stat_sys
        cpu_stat_iow session_id :
      SysProcStatColumn

-- Query::m_sysProcStatColumn
abbrev pub sys_proc_stat_column : SysProcStatColumn → String
sys_proc_stat_column SysProcStatColumn.id = "Id"
sys_proc_stat_column SysProcStatColumn.system_time = "SystemTime"
sys_proc_stat_column SysProcStatColumn.monotonic_time = "MonotonicTime"
sys_proc_stat_column SysProcStatColumn.receive_time = "ReceiveTime"
sys_proc_stat_column SysProcStatColumn.cpu_stat_name = "CPUStatName"
sys_proc_stat_column SysProcStatColumn.cpu_stat_all = "CPUStatAll"
sys_proc_stat_column SysProcStatColumn.cpu_stat_usr = "CPUStatUsr"
sys_proc_stat_column SysProcStatColumn.cpu_stat_sys = "CPUStatSys"
sys_proc_stat_column SysProcStatColumn.cpu_stat_iow = "CPUStatIow"
sys_proc_stat_column SysProcStatColumn.session_id = "SessionId"

-- Query::SysProcMemColumn
pub data SysProcMemColumn : Type 0 where
  id system_time monotonic_time receive_time mem_total mem_free mem_avail mem_cached
        mem_avail_percent active inactive slab kreclaimable sreclaimable sunreclaim kernel_stack
        swap_total swap_free swap_cached swap_free_percent cma_total cma_free session_id :
      SysProcMemColumn

-- Query::m_sysProcMemColumn
abbrev pub sys_proc_mem_column : SysProcMemColumn → String
sys_proc_mem_column SysProcMemColumn.id = "Id"
sys_proc_mem_column SysProcMemColumn.system_time = "SystemTime"
sys_proc_mem_column SysProcMemColumn.monotonic_time = "MonotonicTime"
sys_proc_mem_column SysProcMemColumn.receive_time = "ReceiveTime"
sys_proc_mem_column SysProcMemColumn.mem_total = "MemTotal"
sys_proc_mem_column SysProcMemColumn.mem_free = "MemFree"
sys_proc_mem_column SysProcMemColumn.mem_avail = "MemAvail"
sys_proc_mem_column SysProcMemColumn.mem_cached = "MemCached"
sys_proc_mem_column SysProcMemColumn.mem_avail_percent = "MemAvailPercent"
sys_proc_mem_column SysProcMemColumn.active = "Active"
sys_proc_mem_column SysProcMemColumn.inactive = "Inactive"
sys_proc_mem_column SysProcMemColumn.slab = "Slab"
sys_proc_mem_column SysProcMemColumn.kreclaimable = "KReclaimable"
sys_proc_mem_column SysProcMemColumn.sreclaimable = "SReclaimable"
sys_proc_mem_column SysProcMemColumn.sunreclaim = "SUnreclaim"
sys_proc_mem_column SysProcMemColumn.kernel_stack = "KernelStack"
sys_proc_mem_column SysProcMemColumn.swap_total = "SwapTotal"
sys_proc_mem_column SysProcMemColumn.swap_free = "SwapFree"
sys_proc_mem_column SysProcMemColumn.swap_cached = "SwapCached"
sys_proc_mem_column SysProcMemColumn.swap_free_percent = "SwapFreePercent"
sys_proc_mem_column SysProcMemColumn.cma_total = "CmaTotal"
sys_proc_mem_column SysProcMemColumn.cma_free = "CmaFree"
sys_proc_mem_column SysProcMemColumn.session_id = "SessionId"

-- Query::SysProcDiskColumn
pub data SysProcDiskColumn : Type 0 where
  id system_time monotonic_time receive_time major minor name reads_completed reads_merged
        reads_spent_ms writes_completed writes_merged writes_spent_ms io_in_progress io_spent_ms
        io_weighted_ms session_id :
      SysProcDiskColumn

-- Query::m_sysProcDiskColumn
abbrev pub sys_proc_disk_column : SysProcDiskColumn → String
sys_proc_disk_column SysProcDiskColumn.id = "Id"
sys_proc_disk_column SysProcDiskColumn.system_time = "SystemTime"
sys_proc_disk_column SysProcDiskColumn.monotonic_time = "MonotonicTime"
sys_proc_disk_column SysProcDiskColumn.receive_time = "ReceiveTime"
sys_proc_disk_column SysProcDiskColumn.major = "Major"
sys_proc_disk_column SysProcDiskColumn.minor = "Minor"
sys_proc_disk_column SysProcDiskColumn.name = "Name"
sys_proc_disk_column SysProcDiskColumn.reads_completed = "ReadsCompleted"
sys_proc_disk_column SysProcDiskColumn.reads_merged = "ReadsMerged"
sys_proc_disk_column SysProcDiskColumn.reads_spent_ms = "ReadsSpent"
sys_proc_disk_column SysProcDiskColumn.writes_completed = "WritesCompleted"
sys_proc_disk_column SysProcDiskColumn.writes_merged = "WritesMerged"
sys_proc_disk_column SysProcDiskColumn.writes_spent_ms = "WritesSpent"
sys_proc_disk_column SysProcDiskColumn.io_in_progress = "IOInProgress"
sys_proc_disk_column SysProcDiskColumn.io_spent_ms = "IOSpent"
sys_proc_disk_column SysProcDiskColumn.io_weighted_ms = "IOWeightedMs"
sys_proc_disk_column SysProcDiskColumn.session_id = "SessionId"

-- Query::SysProcPressureColumn
pub data SysProcPressureColumn : Type 0 where
  id system_time monotonic_time receive_time cpu_some_avg_10 cpu_some_avg_60 cpu_some_avg_300
        cpu_some_total cpu_full_avg_10 cpu_full_avg_60 cpu_full_avg_300 cpu_full_total
        mem_some_avg_10 mem_some_avg_60 mem_some_avg_300 mem_some_total mem_full_avg_10
        mem_full_avg_60 mem_full_avg_300 mem_full_total io_some_avg_10 io_some_avg_60
        io_some_avg_300 io_some_total io_full_avg_10 io_full_avg_60 io_full_avg_300 io_full_total
        session_id :
      SysProcPressureColumn

-- Query::m_sysProcPressureColumn
abbrev pub sys_proc_pressure_column : SysProcPressureColumn → String
sys_proc_pressure_column SysProcPressureColumn.id = "Id"
sys_proc_pressure_column SysProcPressureColumn.system_time = "SystemTime"
sys_proc_pressure_column SysProcPressureColumn.monotonic_time = "MonotonicTime"
sys_proc_pressure_column SysProcPressureColumn.receive_time = "ReceiveTime"
sys_proc_pressure_column SysProcPressureColumn.cpu_some_avg_10 = "CPUSomeAvg10"
sys_proc_pressure_column SysProcPressureColumn.cpu_some_avg_60 = "CPUSomeAvg60"
sys_proc_pressure_column SysProcPressureColumn.cpu_some_avg_300 = "CPUSomeAvg300"
sys_proc_pressure_column SysProcPressureColumn.cpu_some_total = "CPUSomeTotal"
sys_proc_pressure_column SysProcPressureColumn.cpu_full_avg_10 = "CPUFullAvg10"
sys_proc_pressure_column SysProcPressureColumn.cpu_full_avg_60 = "CPUFullAvg60"
sys_proc_pressure_column SysProcPressureColumn.cpu_full_avg_300 = "CPUFullAvg300"
sys_proc_pressure_column SysProcPressureColumn.cpu_full_total = "CPUFullTotal"
sys_proc_pressure_column SysProcPressureColumn.mem_some_avg_10 = "MEMSomeAvg10"
sys_proc_pressure_column SysProcPressureColumn.mem_some_avg_60 = "MEMSomeAvg60"
sys_proc_pressure_column SysProcPressureColumn.mem_some_avg_300 = "MEMSomeAvg300"
sys_proc_pressure_column SysProcPressureColumn.mem_some_total = "MEMSomeTotal"
sys_proc_pressure_column SysProcPressureColumn.mem_full_avg_10 = "MEMFullAvg10"
sys_proc_pressure_column SysProcPressureColumn.mem_full_avg_60 = "MEMFullAvg60"
sys_proc_pressure_column SysProcPressureColumn.mem_full_avg_300 = "MEMFullAvg300"
sys_proc_pressure_column SysProcPressureColumn.mem_full_total = "MEMFullTotal"
sys_proc_pressure_column SysProcPressureColumn.io_some_avg_10 = "IOSomeAvg10"
sys_proc_pressure_column SysProcPressureColumn.io_some_avg_60 = "IOSomeAvg60"
sys_proc_pressure_column SysProcPressureColumn.io_some_avg_300 = "IOSomeAvg300"
sys_proc_pressure_column SysProcPressureColumn.io_some_total = "IOSomeTotal"
sys_proc_pressure_column SysProcPressureColumn.io_full_avg_10 = "IOFullAvg10"
sys_proc_pressure_column SysProcPressureColumn.io_full_avg_60 = "IOFullAvg60"
sys_proc_pressure_column SysProcPressureColumn.io_full_avg_300 = "IOFullAvg300"
sys_proc_pressure_column SysProcPressureColumn.io_full_total = "IOFullTotal"
sys_proc_pressure_column SysProcPressureColumn.session_id = "SessionId"

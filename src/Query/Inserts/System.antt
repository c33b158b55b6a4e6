-- ===== src/Query/Inserts/System.antt =====
-- `addData` of source/Query.cpp: the rows of the system's data.
use tkmcollector.Prelude.{List, [], ◌∷◌, ◌++◌, map}
use tkmcollector.Messages.System.{
  CpuStat, SysProcStat, SysProcMemInfo, DiskEntry, SysProcDiskStats, SysProcPressure,
}
use tkmcollector.Query.Columns.System.{
  SysProcStatColumn, sys_proc_stat_column, SysProcMemColumn, sys_proc_mem_column, SysProcDiskColumn,
  sys_proc_disk_column, SysProcPressureColumn, sys_proc_pressure_column,
}
use tkmcollector.Query.Insert.{Insert, Times, names, stamps}

unfoldable pub sys_proc_stat_insert : Times → CpuStat → Insert
sys_proc_stat_insert times row = record {
  table = "tkmSysProcStat";
  columns = names sys_proc_stat_column (
      SysProcStatColumn.system_time ∷ SysProcStatColumn.monotonic_time
      ∷ SysProcStatColumn.receive_time ∷ SysProcStatColumn.cpu_stat_name
      ∷ SysProcStatColumn.cpu_stat_all ∷ SysProcStatColumn.cpu_stat_usr
      ∷ SysProcStatColumn.cpu_stat_sys ∷ SysProcStatColumn.cpu_stat_iow
      ∷ SysProcStatColumn.session_id ∷ []);
  values = stamps times ++ row.name ∷ row.all ∷ row.usr ∷ row.sys ∷ row.iow ∷ [];
}

unfoldable pub sys_proc_stat_inserts : Times → SysProcStat → List Insert
unfolding sys_proc_stat_insert
sys_proc_stat_inserts times m =
    sys_proc_stat_insert times m.cpu ∷ map (sys_proc_stat_insert times) m.core

unfoldable pub sys_proc_mem_info_insert : Times → SysProcMemInfo → Insert
sys_proc_mem_info_insert times row = record {
  table = "tkmSysProcMemInfo";
  columns = names sys_proc_mem_column (
      SysProcMemColumn.system_time ∷ SysProcMemColumn.monotonic_time ∷ SysProcMemColumn.receive_time
      ∷ SysProcMemColumn.mem_total ∷ SysProcMemColumn.mem_free ∷ SysProcMemColumn.mem_avail
      ∷ SysProcMemColumn.mem_cached ∷ SysProcMemColumn.mem_avail_percent ∷ SysProcMemColumn.active
      ∷ SysProcMemColumn.inactive ∷ SysProcMemColumn.slab ∷ SysProcMemColumn.kreclaimable
      ∷ SysProcMemColumn.sreclaimable ∷ SysProcMemColumn.sunreclaim ∷ SysProcMemColumn.kernel_stack
      ∷ SysProcMemColumn.swap_total ∷ SysProcMemColumn.swap_free ∷ SysProcMemColumn.swap_cached
      ∷ SysProcMemColumn.swap_free_percent ∷ SysProcMemColumn.cma_total ∷ SysProcMemColumn.cma_free
      ∷ SysProcMemColumn.session_id ∷ []);
  values =
      stamps times
      ++ row.mem_total ∷ row.mem_free ∷ row.mem_available ∷ row.mem_cached ∷ row.mem_percent
        ∷ row.active ∷ row.inactive ∷ row.slab ∷ row.kreclaimable ∷ row.sreclaimable
        ∷ row.sunreclaim ∷ row.kernel_stack ∷ row.swap_total ∷ row.swap_free ∷ row.swap_cached
        ∷ row.swap_percent ∷ row.cma_total ∷ row.cma_free ∷ [];
}

unfoldable pub sys_proc_disk_stats_insert : Times → DiskEntry → Insert
sys_proc_disk_stats_insert times row = record {
  table = "tkmSysProcDiskStats";
  columns = names sys_proc_disk_column (
      SysProcDiskColumn.system_time ∷ SysProcDiskColumn.monotonic_time
      ∷ SysProcDiskColumn.receive_time ∷ SysProcDiskColumn.major ∷ SysProcDiskColumn.minor
      ∷ SysProcDiskColumn.name ∷ SysProcDiskColumn.reads_completed ∷ SysProcDiskColumn.reads_merged
      ∷ SysProcDiskColumn.reads_spent_ms ∷ SysProcDiskColumn.writes_completed
      ∷ SysProcDiskColumn.writes_merged ∷ SysProcDiskColumn.writes_spent_ms
      ∷ SysProcDiskColumn.io_in_progress ∷ SysProcDiskColumn.io_spent_ms
      ∷ SysProcDiskColumn.io_weighted_ms ∷ SysProcDiskColumn.session_id ∷ []);
  values =
      stamps times
      ++ row.node_major ∷ row.node_minor ∷ row.name ∷ row.reads_completed ∷ row.reads_merged
        ∷ row.reads_spent_ms ∷ row.writes_completed ∷ row.writes_merged ∷ row.writes_spent_ms
        ∷ row.io_in_progress ∷ row.io_spent_ms ∷ row.io_weighted_ms ∷ [];
}

unfoldable pub sys_proc_disk_stats_inserts : Times → SysProcDiskStats → List Insert
unfolding sys_proc_disk_stats_insert
sys_proc_disk_stats_inserts times m = map (sys_proc_disk_stats_insert times) m.disk

unfoldable pub sys_proc_pressure_insert : Times → SysProcPressure → Insert
sys_proc_pressure_insert times row = record {
  table = "tkmSysProcPressure";
  columns =
      names sys_proc_pressure_column (
        SysProcPressureColumn.system_time ∷ SysProcPressureColumn.monotonic_time
        ∷ SysProcPressureColumn.receive_time ∷ SysProcPressureColumn.cpu_some_avg_10
        ∷ SysProcPressureColumn.cpu_some_avg_60 ∷ SysProcPressureColumn.cpu_some_avg_300
        ∷ SysProcPressureColumn.cpu_some_total ∷ SysProcPressureColumn.cpu_full_avg_10
        ∷ SysProcPressureColumn.cpu_full_avg_60 ∷ SysProcPressureColumn.cpu_full_avg_300
        ∷ SysProcPressureColumn.cpu_full_total ∷ SysProcPressureColumn.mem_some_avg_10
        ∷ SysProcPressureColumn.mem_some_avg_60 ∷ SysProcPressureColumn.mem_some_avg_300
        ∷ SysProcPressureColumn.mem_some_total ∷ SysProcPressureColumn.mem_full_avg_10
        ∷ SysProcPressureColumn.mem_full_avg_60 ∷ SysProcPressureColumn.mem_full_avg_300
        ∷ SysProcPressureColumn.mem_full_total ∷ SysProcPressureColumn.io_some_avg_10
        ∷ SysProcPressureColumn.io_some_avg_60 ∷ SysProcPressureColumn.io_some_avg_300
        ∷ SysProcPressureColumn.io_some_total ∷ SysProcPressureColumn.io_full_avg_10
        ∷ SysProcPressureColumn.io_full_avg_60 ∷ SysProcPressureColumn.io_full_avg_300
        ∷ SysProcPressureColumn.io_full_total ∷ [])
      ++ sys_proc_stat_column SysProcStatColumn.session_id ∷ [];
  values =
      stamps times
      ++ row.cpu_some.avg10 ∷ row.cpu_some.avg60 ∷ row.cpu_some.avg300 ∷ row.cpu_some.total
        ∷ row.cpu_full.avg10 ∷ row.cpu_full.avg60 ∷ row.cpu_full.avg300 ∷ row.cpu_full.total
        ∷ row.mem_some.avg10 ∷ row.mem_some.avg60 ∷ row.mem_some.avg300 ∷ row.mem_some.total
        ∷ row.mem_full.avg10 ∷ row.mem_full.avg60 ∷ row.mem_full.avg300 ∷ row.mem_full.total
        ∷ row.io_some.avg10 ∷ row.io_some.avg60 ∷ row.io_some.avg300 ∷ row.io_some.total
        ∷ row.io_full.avg10 ∷ row.io_full.avg60 ∷ row.io_full.avg300 ∷ row.io_full.total ∷ [];
}

-- ===== src/Query/Tables/System.antt =====
-- `createTables` of source/Query.cpp: the tables of the system's data.
use tkmcollector.Prelude.{[], ◌∷◌}
use tkmcollector.Query.Columns.System.{
  SysProcStatColumn, sys_proc_stat_column, SysProcMemColumn, sys_proc_mem_column, SysProcDiskColumn,
  sys_proc_disk_column, SysProcPressureColumn, sys_proc_pressure_column,
}
use tkmcollector.Query.Schema.{Table, int, key, real, text, wide, session_key}

unfoldable pub sys_proc_stat : Table
sys_proc_stat = record {
  name = "tkmSysProcStat";
  columns =
      (sys_proc_stat_column SysProcStatColumn.id, key)
      ∷ (sys_proc_stat_column SysProcStatColumn.system_time, wide)
      ∷ (sys_proc_stat_column SysProcStatColumn.monotonic_time, wide)
      ∷ (sys_proc_stat_column SysProcStatColumn.receive_time, wide)
      ∷ (sys_proc_stat_column SysProcStatColumn.cpu_stat_name, text)
      ∷ (sys_proc_stat_column SysProcStatColumn.cpu_stat_all, wide)
      ∷ (sys_proc_stat_column SysProcStatColumn.cpu_stat_usr, wide)
      ∷ (sys_proc_stat_column SysProcStatColumn.cpu_stat_sys, wide)
      ∷ (sys_proc_stat_column SysProcStatColumn.cpu_stat_iow, wide)
      ∷ (sys_proc_stat_column SysProcStatColumn.session_id, int)
      ∷ [];
  reference = session_key (sys_proc_stat_column SysProcStatColumn.session_id);
}

unfoldable pub sys_proc_mem_info : Table
sys_proc_mem_info = record {
  name = "tkmSysProcMemInfo";
  columns =
      (sys_proc_mem_column SysProcMemColumn.id, key)
      ∷ (sys_proc_mem_column SysProcMemColumn.system_time, wide)
      ∷ (sys_proc_mem_column SysProcMemColumn.monotonic_time, wide)
      ∷ (sys_proc_mem_column SysProcMemColumn.receive_time, wide)
      ∷ (sys_proc_mem_column SysProcMemColumn.mem_total, wide)
      ∷ (sys_proc_mem_column SysProcMemColumn.mem_free, wide)
      ∷ (sys_proc_mem_column SysProcMemColumn.mem_avail, wide)
      ∷ (sys_proc_mem_column SysProcMemColumn.mem_cached, wide)
      ∷ (sys_proc_mem_column SysProcMemColumn.mem_avail_percent, wide)
      ∷ (sys_proc_mem_column SysProcMemColumn.active, wide)
      ∷ (sys_proc_mem_column SysProcMemColumn.inactive, wide)
      ∷ (sys_proc_mem_column SysProcMemColumn.slab, wide)
      ∷ (sys_proc_mem_column SysProcMemColumn.kreclaimable, wide)
      ∷ (sys_proc_mem_column SysProcMemColumn.sreclaimable, wide)
      ∷ (sys_proc_mem_column SysProcMemColumn.sunreclaim, wide)
      ∷ (sys_proc_mem_column SysProcMemColumn.kernel_stack, wide)
      ∷ (sys_proc_mem_column SysProcMemColumn.swap_total, wide)
      ∷ (sys_proc_mem_column SysProcMemColumn.swap_free, wide)
      ∷ (sys_proc_mem_column SysProcMemColumn.swap_cached, wide)
      ∷ (sys_proc_mem_column SysProcMemColumn.swap_free_percent, wide)
      ∷ (sys_proc_mem_column SysProcMemColumn.cma_total, wide)
      ∷ (sys_proc_mem_column SysProcMemColumn.cma_free, wide)
      ∷ (sys_proc_mem_column SysProcMemColumn.session_id, int)
      ∷ [];
  reference = session_key (sys_proc_mem_column SysProcMemColumn.session_id);
}

unfoldable pub sys_proc_disk_stats : Table
sys_proc_disk_stats = record {
  name = "tkmSysProcDiskStats";
  columns =
      (sys_proc_disk_column SysProcDiskColumn.id, key)
      ∷ (sys_proc_disk_column SysProcDiskColumn.system_time, wide)
      ∷ (sys_proc_disk_column SysProcDiskColumn.monotonic_time, wide)
      ∷ (sys_proc_disk_column SysProcDiskColumn.receive_time, wide)
      ∷ (sys_proc_disk_column SysProcDiskColumn.major, int)
      ∷ (sys_proc_disk_column SysProcDiskColumn.minor, int)
      ∷ (sys_proc_disk_column SysProcDiskColumn.name, text)
      ∷ (sys_proc_disk_column SysProcDiskColumn.reads_completed, wide)
      ∷ (sys_proc_disk_column SysProcDiskColumn.reads_merged, wide)
      ∷ (sys_proc_disk_column SysProcDiskColumn.reads_spent_ms, wide)
      ∷ (sys_proc_disk_column SysProcDiskColumn.writes_completed, wide)
      ∷ (sys_proc_disk_column SysProcDiskColumn.writes_merged, wide)
      ∷ (sys_proc_disk_column SysProcDiskColumn.writes_spent_ms, wide)
      ∷ (sys_proc_disk_column SysProcDiskColumn.io_in_progress, wide)
      ∷ (sys_proc_disk_column SysProcDiskColumn.io_spent_ms, wide)
      ∷ (sys_proc_disk_column SysProcDiskColumn.io_weighted_ms, wide)
      ∷ (sys_proc_disk_column SysProcDiskColumn.session_id, int)
      ∷ [];
  reference = session_key (sys_proc_stat_column SysProcStatColumn.session_id);
}

unfoldable pub sys_proc_pressure : Table
sys_proc_pressure = record {
  name = "tkmSysProcPressure";
  columns =
      (sys_proc_pressure_column SysProcPressureColumn.id, key)
      ∷ (sys_proc_pressure_column SysProcPressureColumn.system_time, wide)
      ∷ (sys_proc_pressure_column SysProcPressureColumn.monotonic_time, wide)
      ∷ (sys_proc_pressure_column SysProcPressureColumn.receive_time, wide)
      ∷ (sys_proc_pressure_column SysProcPressureColumn.cpu_some_avg_10, real)
      ∷ (sys_proc_pressure_column SysProcPressureColumn.cpu_some_avg_60, real)
      ∷ (sys_proc_pressure_column SysProcPressureColumn.cpu_some_avg_300, real)
      ∷ (sys_proc_pressure_column SysProcPressureColumn.cpu_some_total, wide)
      ∷ (sys_proc_pressure_column SysProcPressureColumn.cpu_full_avg_10, real)
      ∷ (sys_proc_pressure_column SysProcPressureColumn.cpu_full_avg_60, real)
      ∷ (sys_proc_pressure_column SysProcPressureColumn.cpu_full_avg_300, real)
      ∷ (sys_proc_pressure_column SysProcPressureColumn.cpu_full_total, wide)
      ∷ (sys_proc_pressure_column SysProcPressureColumn.mem_some_avg_10, real)
      ∷ (sys_proc_pressure_column SysProcPressureColumn.mem_some_avg_60, real)
      ∷ (sys_proc_pressure_column SysProcPressureColumn.mem_some_avg_300, real)
      ∷ (sys_proc_pressure_column SysProcPressureColumn.mem_some_total, wide)
      ∷ (sys_proc_pressure_column SysProcPressureColumn.mem_full_avg_10, real)
      ∷ (sys_proc_pressure_column SysProcPressureColumn.mem_full_avg_60, real)
      ∷ (sys_proc_pressure_column SysProcPressureColumn.mem_full_avg_300, real)
      ∷ (sys_proc_pressure_column SysProcPressureColumn.mem_full_total, wide)
      ∷ (sys_proc_pressure_column SysProcPressureColumn.io_some_avg_10, real)
      ∷ (sys_proc_pressure_column SysProcPressureColumn.io_some_avg_60, real)
      ∷ (sys_proc_pressure_column SysProcPressureColumn.io_some_avg_300, real)
      ∷ (sys_proc_pressure_column SysProcPressureColumn.io_some_total, wide)
      ∷ (sys_proc_pressure_column SysProcPressureColumn.io_full_avg_10, real)
      ∷ (sys_proc_pressure_column SysProcPressureColumn.io_full_avg_60, real)
      ∷ (sys_proc_pressure_column SysProcPressureColumn.io_full_avg_300, real)
      ∷ (sys_proc_pressure_column SysProcPressureColumn.io_full_total, wide)
      ∷ (sys_proc_pressure_column SysProcPressureColumn.session_id, int)
      ∷ [];
  reference = session_key (sys_proc_pressure_column SysProcPressureColumn.session_id);
}

-- ===== src/Query/Tables/Kernel.antt =====
-- `createTables` of source/Query.cpp: the tables of the kernel's data.
use tkmcollector.Prelude.{[], ◌∷◌}
use tkmcollector.Query.Columns.Kernel.{
  SysProcVmStatColumn, sys_proc_vm_stat_column, SysProcBuddyInfoColumn, sys_proc_buddy_info_column,
  SysProcWirelessColumn, sys_proc_wireless_column,
}
use tkmcollector.Query.Schema.{Table, int, key, text, wide, session_key}

unfoldable pub sys_proc_vm_stat : Table
sys_proc_vm_stat = record {
  name = "tkmSysProcVMStat";
  columns =
      (sys_proc_vm_stat_column SysProcVmStatColumn.id, key)
      ∷ (sys_proc_vm_stat_column SysProcVmStatColumn.system_time, wide)
      ∷ (sys_proc_vm_stat_column SysProcVmStatColumn.monotonic_time, wide)
      ∷ (sys_proc_vm_stat_column SysProcVmStatColumn.receive_time, wide)
      ∷ (sys_proc_vm_stat_column SysProcVmStatColumn.pg_pgin, wide)
      ∷ (sys_proc_vm_stat_column SysProcVmStatColumn.pg_pgout, wide)
      ∷ (sys_proc_vm_stat_column SysProcVmStatColumn.pswpin, wide)
      ∷ (sys_proc_vm_stat_column SysProcVmStatColumn.pswpout, wide)
      ∷ (sys_proc_vm_stat_column SysProcVmStatColumn.pg_majfault, wide)
      ∷ (sys_proc_vm_stat_column SysProcVmStatColumn.pg_reuse, wide)
      ∷ (sys_proc_vm_stat_column SysProcVmStatColumn.pg_steal_kswapd, wide)
      ∷ (sys_proc_vm_stat_column SysProcVmStatColumn.pg_steal_direct, wide)
      ∷ (sys_proc_vm_stat_column SysProcVmStatColumn.pg_steal_khugepaged, wide)
      ∷ (sys_proc_vm_stat_column SysProcVmStatColumn.pg_steal_anon, wide)
      ∷ (sys_proc_vm_stat_column SysProcVmStatColumn.pg_steal_file, wide)
      ∷ (sys_proc_vm_stat_column SysProcVmStatColumn.pg_scan_kswapd, wide)
      ∷ (sys_proc_vm_stat_column SysProcVmStatColumn.pg_scan_direct, wide)
      ∷ (sys_proc_vm_stat_column SysProcVmStatColumn.pg_scan_khugepaged, wide)
      ∷ (sys_proc_vm_stat_column SysProcVmStatColumn.pg_scan_direct_throttle, wide)
      ∷ (sys_proc_vm_stat_column SysProcVmStatColumn.pg_scan_anon, wide)
      ∷ (sys_proc_vm_stat_column SysProcVmStatColumn.pg_scan_file, wide)
      ∷ (sys_proc_vm_stat_column SysProcVmStatColumn.oom_kill, wide)
      ∷ (sys_proc_vm_stat_column SysProcVmStatColumn.compact_stall, wide)
      ∷ (sys_proc_vm_stat_column SysProcVmStatColumn.compact_fail, wide)
      ∷ (sys_proc_vm_stat_column SysProcVmStatColumn.compact_success, wide)
      ∷ (sys_proc_vm_stat_column SysProcVmStatColumn.thp_fault_alloc, wide)
      ∷ (sys_proc_vm_stat_column SysProcVmStatColumn.thp_collapse_alloc, wide)
      ∷ (sys_proc_vm_stat_column SysProcVmStatColumn.thp_collapse_alloc_failed, wide)
      ∷ (sys_proc_vm_stat_column SysProcVmStatColumn.thp_file_alloc, wide)
      ∷ (sys_proc_vm_stat_column SysProcVmStatColumn.thp_file_mapped, wide)
      ∷ (sys_proc_vm_stat_column SysProcVmStatColumn.thp_split_page, wide)
      ∷ (sys_proc_vm_stat_column SysProcVmStatColumn.thp_split_page_failed, wide)
      ∷ (sys_proc_vm_stat_column SysProcVmStatColumn.thp_zero_page_alloc, wide)
      ∷ (sys_proc_vm_stat_column SysProcVmStatColumn.thp_zero_page_alloc_failed, wide)
      ∷ (sys_proc_vm_stat_column SysProcVmStatColumn.thp_swpout, wide)
      ∷ (sys_proc_vm_stat_column SysProcVmStatColumn.thp_swpout_fallback, wide)
      ∷ (sys_proc_vm_stat_column SysProcVmStatColumn.session_id, wide)
      ∷ [];
  reference = session_key (sys_proc_vm_stat_column SysProcVmStatColumn.session_id);
}

unfoldable pub sys_proc_buddy_info : Table
sys_proc_buddy_info = record {
  name = "tkmSysProcBuddyInfo";
  columns =
      (sys_proc_buddy_info_column SysProcBuddyInfoColumn.id, key)
      ∷ (sys_proc_buddy_info_column SysProcBuddyInfoColumn.system_time, wide)
      ∷ (sys_proc_buddy_info_column SysProcBuddyInfoColumn.monotonic_time, wide)
      ∷ (sys_proc_buddy_info_column SysProcBuddyInfoColumn.receive_time, wide)
      ∷ (sys_proc_buddy_info_column SysProcBuddyInfoColumn.name, text)
      ∷ (sys_proc_buddy_info_column SysProcBuddyInfoColumn.zone, text)
      ∷ (sys_proc_buddy_info_column SysProcBuddyInfoColumn.data', text)
      ∷ (sys_proc_buddy_info_column SysProcBuddyInfoColumn.session_id, int)
      ∷ [];
  reference = session_key (sys_proc_buddy_info_column SysProcBuddyInfoColumn.session_id);
}

unfoldable pub sys_proc_wireless : Table
sys_proc_wireless = record {
  name = "tkmSysProcWireless";
  columns =
      (sys_proc_wireless_column SysProcWirelessColumn.id, key)
      ∷ (sys_proc_wireless_column SysProcWirelessColumn.system_time, wide)
      ∷ (sys_proc_wireless_column SysProcWirelessColumn.monotonic_time, wide)
      ∷ (sys_proc_wireless_column SysProcWirelessColumn.receive_time, wide)
      ∷ (sys_proc_wireless_column SysProcWirelessColumn.name, text)
      ∷ (sys_proc_wireless_column SysProcWirelessColumn.status, text)
      ∷ (sys_proc_wireless_column SysProcWirelessColumn.quality_link, wide)
      ∷ (sys_proc_wireless_column SysProcWirelessColumn.quality_level, wide)
      ∷ (sys_proc_wireless_column SysProcWirelessColumn.quality_noise, wide)
      ∷ (sys_proc_wireless_column SysProcWirelessColumn.discarded_nwid, wide)
      ∷ (sys_proc_wireless_column SysProcWirelessColumn.discarded_crypt, wide)
      ∷ (sys_proc_wireless_column SysProcWirelessColumn.discarded_frag, wide)
      ∷ (sys_proc_wireless_column SysProcWirelessColumn.discarded_retry, wide)
      ∷ (sys_proc_wireless_column SysProcWirelessColumn.discarded_misc, wide)
      ∷ (sys_proc_wireless_column SysProcWirelessColumn.missed_beacon, wide)
      ∷ (sys_proc_wireless_column SysProcWirelessColumn.session_id, int)
      ∷ [];
  reference = session_key (sys_proc_wireless_column SysProcWirelessColumn.session_id);
}

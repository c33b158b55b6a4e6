-- ===== src/Query/Inserts/Kernel.antt =====
-- `addData` of source/Query.cpp: the rows of the kernel's data.
use tkmcollector.Prelude.{List, [], ◌∷◌, ◌++◌, map}
use tkmcollector.Messages.Kernel.{
  BuddyInfo, SysProcBuddyInfo, WirelessInterface, SysProcWireless, SysProcVmStat,
}
use tkmcollector.Query.Columns.Kernel.{
  SysProcVmStatColumn, sys_proc_vm_stat_column, SysProcBuddyInfoColumn, sys_proc_buddy_info_column,
  SysProcWirelessColumn, sys_proc_wireless_column,
}
use tkmcollector.Query.Insert.{Insert, Times, names, stamps}

unfoldable pub sys_proc_buddy_info_insert : Times → BuddyInfo → Insert
sys_proc_buddy_info_insert times row = record {
  table = "tkmSysProcBuddyInfo";
  columns = names sys_proc_buddy_info_column (
      SysProcBuddyInfoColumn.system_time ∷ SysProcBuddyInfoColumn.monotonic_time
      ∷ SysProcBuddyInfoColumn.receive_time ∷ SysProcBuddyInfoColumn.name
      ∷ SysProcBuddyInfoColumn.zone ∷ SysProcBuddyInfoColumn.data'
      ∷ SysProcBuddyInfoColumn.session_id ∷ []);
  values = stamps times ++ row.name ∷ row.zone ∷ row.data' ∷ [];
}

unfoldable pub sys_proc_buddy_info_inserts : Times → SysProcBuddyInfo → List Insert
unfolding sys_proc_buddy_info_insert
sys_proc_buddy_info_inserts times m = map (sys_proc_buddy_info_insert times) m.node

unfoldable pub sys_proc_wireless_insert : Times → WirelessInterface → Insert
sys_proc_wireless_insert times row = record {
  table = "tkmSysProcWireless";
  columns = names sys_proc_wireless_column (
      SysProcWirelessColumn.system_time ∷ SysProcWirelessColumn.monotonic_time
      ∷ SysProcWirelessColumn.receive_time ∷ SysProcWirelessColumn.name
      ∷ SysProcWirelessColumn.status ∷ SysProcWirelessColumn.quality_link
      ∷ SysProcWirelessColumn.quality_level ∷ SysProcWirelessColumn.quality_noise
      ∷ SysProcWirelessColumn.discarded_nwid ∷ SysProcWirelessColumn.discarded_crypt
      ∷ SysProcWirelessColumn.discarded_frag ∷ SysProcWirelessColumn.discarded_retry
      ∷ SysProcWirelessColumn.discarded_misc ∷ SysProcWirelessColumn.missed_beacon
      ∷ SysProcWirelessColumn.session_id ∷ []);
  values =
      stamps times
      ++ row.name ∷ row.status ∷ row.quality_link ∷ row.quality_level ∷ row.quality_noise
        ∷ row.discarded_nwid ∷ row.discarded_crypt ∷ row.discarded_frag ∷ row.discarded_retry
        ∷ row.discarded_misc ∷ row.missed_beacon ∷ [];
}

unfoldable pub sys_proc_wireless_inserts : Times → SysProcWireless → List Insert
unfolding sys_proc_wireless_insert
sys_proc_wireless_inserts times m = map (sys_proc_wireless_insert times) m.ifw

unfoldable pub sys_proc_vm_stat_insert : Times → SysProcVmStat → Insert
sys_proc_vm_stat_insert times row = record {
  table = "tkmSysProcVMStat";
  columns = names sys_proc_vm_stat_column (
      SysProcVmStatColumn.system_time ∷ SysProcVmStatColumn.monotonic_time
      ∷ SysProcVmStatColumn.receive_time ∷ SysProcVmStatColumn.pg_pgin
      ∷ SysProcVmStatColumn.pg_pgout ∷ SysProcVmStatColumn.pswpin ∷ SysProcVmStatColumn.pswpout
      ∷ SysProcVmStatColumn.pg_majfault ∷ SysProcVmStatColumn.pg_reuse
      ∷ SysProcVmStatColumn.pg_steal_kswapd ∷ SysProcVmStatColumn.pg_steal_direct
      ∷ SysProcVmStatColumn.pg_steal_khugepaged ∷ SysProcVmStatColumn.pg_steal_anon
      ∷ SysProcVmStatColumn.pg_steal_file ∷ SysProcVmStatColumn.pg_scan_kswapd
      ∷ SysProcVmStatColumn.pg_scan_direct ∷ SysProcVmStatColumn.pg_scan_khugepaged
      ∷ SysProcVmStatColumn.pg_scan_direct_throttle ∷ SysProcVmStatColumn.pg_scan_anon
      ∷ SysProcVmStatColumn.pg_scan_file ∷ SysProcVmStatColumn.oom_kill
      ∷ SysProcVmStatColumn.compact_stall ∷ SysProcVmStatColumn.compact_fail
      ∷ SysProcVmStatColumn.compact_success ∷ SysProcVmStatColumn.thp_fault_alloc
      ∷ SysProcVmStatColumn.thp_collapse_alloc ∷ SysProcVmStatColumn.thp_collapse_alloc_failed
      ∷ SysProcVmStatColumn.thp_file_alloc ∷ SysProcVmStatColumn.thp_file_mapped
      ∷ SysProcVmStatColumn.thp_split_page ∷ SysProcVmStatColumn.thp_split_page_failed
      ∷ SysProcVmStatColumn.thp_zero_page_alloc ∷ SysProcVmStatColumn.thp_zero_page_alloc_failed
      ∷ SysProcVmStatColumn.thp_swpout ∷ SysProcVmStatColumn.thp_swpout_fallback
      ∷ SysProcVmStatColumn.session_id ∷ []);
  values =
      stamps times
      ++ row.pgpgin ∷ row.pgpgout ∷ row.pswpin ∷ row.pswpout ∷ row.pgmajfault ∷ row.pgreuse
        ∷ row.pgsteal_kswapd ∷ row.pgsteal_direct ∷ row.pgsteal_khugepaged ∷ row.pgsteal_anon
        ∷ row.pgsteal_file ∷ row.pgscan_kswapd ∷ row.pgscan_direct ∷ row.pgscan_khugepaged
        ∷ row.pgscan_direct_throttle ∷ row.pgscan_anon ∷ row.pgscan_file ∷ row.oom_kill
        ∷ row.compact_stall ∷ row.compact_fail ∷ row.compact_success ∷ row.thp_fault_alloc
        ∷ row.thp_collapse_alloc ∷ row.thp_collapse_alloc_failed ∷ row.thp_file_alloc
        ∷ row.thp_file_mapped ∷ row.thp_split_page ∷ row.thp_split_page_failed
        ∷ row.thp_zero_page_alloc ∷ row.thp_zero_page_alloc_failed ∷ row.thp_swpout
        ∷ row.thp_swpout_fallback ∷ [];
}

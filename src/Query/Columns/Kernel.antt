-- ===== src/Query/Columns/Kernel.antt =====
-- The columns of the tables with the data of the kernel (source/Query.h).
use tkmcollector.Prelude.{String}

-- Query::SysProcVMStatColumn
pub data SysProcVmStatColumn : Type 0 where
  id system_time monotonic_time receive_time pg_pgin pg_pgout pswpin pswpout pg_majfault pg_reuse
        pg_steal_kswapd pg_steal_direct pg_steal_khugepaged pg_steal_anon pg_steal_file
        pg_scan_kswapd pg_scan_direct pg_scan_khugepaged pg_scan_direct_throttle pg_scan_anon
        pg_scan_file oom_kill compact_stall compact_fail compact_success thp_fault_alloc
        thp_collapse_alloc thp_collapse_alloc_failed thp_file_alloc thp_file_mapped thp_split_page
        thp_split_page_failed thp_zero_page_alloc thp_zero_page_alloc_failed thp_swpout
        thp_swpout_fallback session_id :
      SysProcVmStatColumn

-- Query::m_sysProcVMStatColumn
abbrev pub sys_proc_vm_stat_column : SysProcVmStatColumn → String
sys_proc_vm_stat_column SysProcVmStatColumn.id = "Id"
sys_proc_vm_stat_column SysProcVmStatColumn.system_time = "SystemTime"
sys_proc_vm_stat_column SysProcVmStatColumn.monotonic_time = "MonotonicTime"
sys_proc_vm_stat_column SysProcVmStatColumn.receive_time = "ReceiveTime"
sys_proc_vm_stat_column SysProcVmStatColumn.pg_pgin = "PGpgin"
sys_proc_vm_stat_column SysProcVmStatColumn.pg_pgout = "PGpgout"
sys_proc_vm_stat_column SysProcVmStatColumn.pswpin = "PSwpin"
sys_proc_vm_stat_column SysProcVmStatColumn.pswpout = "PSwpout"
sys_proc_vm_stat_column SysProcVmStatColumn.pg_majfault = "PGmajfault"
sys_proc_vm_stat_column SysProcVmStatColumn.pg_reuse = "PGreuse"
sys_proc_vm_stat_column SysProcVmStatColumn.pg_steal_kswapd = "PGStealKswapd"
sys_proc_vm_stat_column SysProcVmStatColumn.pg_steal_direct = "PGStealDirect"
sys_proc_vm_stat_column SysProcVmStatColumn.pg_steal_khugepaged = "PGStealKhugepaged"
sys_proc_vm_stat_column SysProcVmStatColumn.pg_steal_anon = "PGStealAnon"
sys_proc_vm_stat_column SysProcVmStatColumn.pg_steal_file = "PGStealFile"
sys_proc_vm_stat_column SysProcVmStatColumn.pg_scan_kswapd = "PGScanKswapd"
sys_proc_vm_stat_column SysProcVmStatColumn.pg_scan_direct = "PGScanDirect"
sys_proc_vm_stat_column SysProcVmStatColumn.pg_scan_khugepaged = "PGScanKhugepaged"
sys_proc_vm_stat_column SysProcVmStatColumn.pg_scan_direct_throttle = "PGScanDirectThrottle"
sys_proc_vm_stat_column SysProcVmStatColumn.pg_scan_anon = "PGScanAnon"
sys_proc_vm_stat_column SysProcVmStatColumn.pg_scan_file = "PGScanFile"
sys_proc_vm_stat_column SysProcVmStatColumn.oom_kill = "OOMKill"
sys_proc_vm_stat_column SysProcVmStatColumn.compact_stall = "CompactStall"
sys_proc_vm_stat_column SysProcVmStatColumn.compact_fail = "CompactFail"
sys_proc_vm_stat_column SysProcVmStatColumn.compact_success = "CompactSuccess"
sys_proc_vm_stat_column SysProcVmStatColumn.thp_fault_alloc = "ThpFaultAlloc"
sys_proc_vm_stat_column SysProcVmStatColumn.thp_collapse_alloc = "ThpCollapseAlloc"
sys_proc_vm_stat_column SysProcVmStatColumn.thp_collapse_alloc_failed = "ThpCollapseAllocFailed"
sys_proc_vm_stat_column SysProcVmStatColumn.thp_file_alloc = "ThpFileAlloc"
sys_proc_vm_stat_column SysProcVmStatColumn.thp_file_mapped = "ThpFileMapped"
sys_proc_vm_stat_column SysProcVmStatColumn.thp_split_page = "ThpSplitPage"
sys_proc_vm_stat_column SysProcVmStatColumn.thp_split_page_failed = "ThpSplitPageFailed"
sys_proc_vm_stat_column SysProcVmStatColumn.thp_zero_page_alloc = "ThpZeroPageAlloc"
sys_proc_vm_stat_column SysProcVmStatColumn.thp_zero_page_alloc_failed = "ThpZeroPageAllocFailed"
sys_proc_vm_stat_column SysProcVmStatColumn.thp_swpout = "ThpSwpout"
sys_proc_vm_stat_column SysProcVmStatColumn.thp_swpout_fallback = "ThpSwpoutFallback"
sys_proc_vm_stat_column SysProcVmStatColumn.session_id = "SessionId"

-- Query::SysProcBuddyInfoColumn
pub data SysProcBuddyInfoColumn : Type 0 where
  id system_time monotonic_time receive_time name zone data' session_id : SysProcBuddyInfoColumn

-- Query::m_sysProcBuddyInfoColumn
abbrev pub sys_proc_buddy_info_column : SysProcBuddyInfoColumn → String
sys_proc_buddy_info_column SysProcBuddyInfoColumn.id = "Id"
sys_proc_buddy_info_column SysProcBuddyInfoColumn.system_time = "SystemTime"
sys_proc_buddy_info_column SysProcBuddyInfoColumn.monotonic_time = "MonotonicTime"
sys_proc_buddy_info_column SysProcBuddyInfoColumn.receive_time = "ReceiveTime"
sys_proc_buddy_info_column SysProcBuddyInfoColumn.name = "Name"
sys_proc_buddy_info_column SysProcBuddyInfoColumn.zone = "Zone"
sys_proc_buddy_info_column SysProcBuddyInfoColumn.data' = "Data"
sys_proc_buddy_info_column SysProcBuddyInfoColumn.session_id = "SessionId"

-- Query::SysProcWirelessColumn
pub data SysProcWirelessColumn : Type 0 where
  id system_time monotonic_time receive_time name status quality_link quality_level quality_noise
        discarded_nwid discarded_crypt discarded_frag discarded_retry discarded_misc missed_beacon
        session_id :
      SysProcWirelessColumn

-- Query::m_sysProcWirelessColumn
abbrev pub sys_proc_wireless_column : SysProcWirelessColumn → String
sys_proc_wireless_column SysProcWirelessColumn.id = "Id"
sys_proc_wireless_column SysProcWirelessColumn.system_time = "SystemTime"
sys_proc_wireless_column SysProcWirelessColumn.monotonic_time = "MonotonicTime"
sys_proc_wireless_column SysProcWirelessColumn.receive_time = "ReceiveTime"
sys_proc_wireless_column SysProcWirelessColumn.name = "Name"
sys_proc_wireless_column SysProcWirelessColumn.status = "Status"
sys_proc_wireless_column SysProcWirelessColumn.quality_link = "QualityLink"
sys_proc_wireless_column SysProcWirelessColumn.quality_level = "QualityLevel"
sys_proc_wireless_column SysProcWirelessColumn.quality_noise = "QualityNoise"
sys_proc_wireless_column SysProcWirelessColumn.discarded_nwid = "DiscardedNWId"
sys_proc_wireless_column SysProcWirelessColumn.discarded_crypt = "DiscardedCrypt"
sys_proc_wireless_column SysProcWirelessColumn.discarded_frag = "DiscardedFrag"
sys_proc_wireless_column SysProcWirelessColumn.discarded_retry = "DiscardedRetry"
sys_proc_wireless_column SysProcWirelessColumn.discarded_misc = "DiscardedMisc"
sys_proc_wireless_column SysProcWirelessColumn.missed_beacon = "MissedBeacon"
sys_proc_wireless_column SysProcWirelessColumn.session_id = "SessionId"

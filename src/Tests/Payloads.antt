-- ===== src/Tests/Payloads.antt =====
-- Unpacking into messages whose numbers are all 0, with one row where a message has several.
use tkmcollector.Prelude.{[], ◌∷◌}
use tkmcollector.Messages.Process.{
  ProcEvent, AcctCpu, AcctMem, AcctCtx, AcctSwp, AcctIo, AcctReclaim, AcctThrashing, ProcAcct,
  ProcEntry, ProcInfo, ContextEntry, ContextInfo,
}
use tkmcollector.Messages.System.{
  CpuStat, SysProcStat, SysProcMemInfo, DiskEntry, SysProcDiskStats, PressureData, SysProcPressure,
}
use tkmcollector.Messages.Kernel.{
  BuddyInfo, SysProcBuddyInfo, WirelessInterface, SysProcWireless, SysProcVmStat,
}
use tkmcollector.Messages.Payload.{UnpackData}

abbrev pub zero_proc_event : ProcEvent
zero_proc_event = record {
  fork_count = "0";
  exec_count = "0";
  exit_count = "0";
  uid_count = "0";
  gid_count = "0";
}

abbrev pub zero_acct_cpu : AcctCpu
zero_acct_cpu = record {
  cpu_count = "0";
  cpu_run_real_total = "0";
  cpu_run_virtual_total = "0";
  cpu_delay_total = "0";
  cpu_delay_average = "0";
}

abbrev pub zero_acct_mem : AcctMem
zero_acct_mem = record { coremem = "0"; virtmem = "0"; hiwater_rss = "0"; hiwater_vm = "0" }

abbrev pub zero_acct_ctx : AcctCtx
zero_acct_ctx = record { nvcsw = "0"; nivcsw = "0" }

abbrev pub zero_acct_swp : AcctSwp
zero_acct_swp = record { swapin_count = "0"; swapin_delay_total = "0"; swapin_delay_average = "0" }

abbrev pub zero_acct_io : AcctIo
zero_acct_io = record {
  blkio_count = "0";
  blkio_delay_total = "0";
  blkio_delay_average = "0";
  read_bytes = "0";
  write_bytes = "0";
  read_char = "0";
  write_char = "0";
  read_syscalls = "0";
  write_syscalls = "0";
}

abbrev pub zero_acct_reclaim : AcctReclaim
zero_acct_reclaim = record {
  freepages_count = "0";
  freepages_delay_total = "0";
  freepages_delay_average = "0";
}

abbrev pub zero_acct_thrashing : AcctThrashing
zero_acct_thrashing = record {
  thrashing_count = "0";
  thrashing_delay_total = "0";
  thrashing_delay_average = "0";
}

abbrev pub zero_proc_acct : ProcAcct
zero_proc_acct = record {
  ac_comm = "0";
  ac_uid = "0";
  ac_gid = "0";
  ac_pid = "0";
  ac_ppid = "0";
  ac_utime = "0";
  ac_stime = "0";
  cpu = zero_acct_cpu;
  mem = zero_acct_mem;
  ctx = zero_acct_ctx;
  swp = zero_acct_swp;
  io = zero_acct_io;
  reclaim = zero_acct_reclaim;
  thrashing = zero_acct_thrashing;
}

abbrev pub zero_proc_entry : ProcEntry
zero_proc_entry = record {
  comm = "0";
  pid = "0";
  ppid = "0";
  ctx_id = "0";
  ctx_name = "0";
  cpu_time = "0";
  cpu_percent = "0";
  mem_rss = "0";
  mem_pss = "0";
  fd_count = "0";
}

abbrev pub zero_proc_info : ProcInfo
zero_proc_info = record { entry = zero_proc_entry ∷ [] }

abbrev pub zero_context_entry : ContextEntry
zero_context_entry = record {
  ctx_id = "0";
  ctx_name = "0";
  total_cpu_time = "0";
  total_cpu_percent = "0";
  total_mem_rss = "0";
  total_mem_pss = "0";
  total_fd_count = "0";
}

abbrev pub zero_context_info : ContextInfo
zero_context_info = record { entry = zero_context_entry ∷ [] }

abbrev pub zero_cpu_stat : CpuStat
zero_cpu_stat = record { name = "0"; all = "0"; usr = "0"; sys = "0"; iow = "0" }

abbrev pub zero_sys_proc_stat : SysProcStat
zero_sys_proc_stat = record { cpu = zero_cpu_stat; core = zero_cpu_stat ∷ [] }

abbrev pub zero_sys_proc_mem_info : SysProcMemInfo
zero_sys_proc_mem_info = record {
  mem_total = "0";
  mem_free = "0";
  mem_available = "0";
  mem_cached = "0";
  mem_percent = "0";
  active = "0";
  inactive = "0";
  slab = "0";
  kreclaimable = "0";
  sreclaimable = "0";
  sunreclaim = "0";
  kernel_stack = "0";
  swap_total = "0";
  swap_free = "0";
  swap_cached = "0";
  swap_percent = "0";
  cma_total = "0";
  cma_free = "0";
}

abbrev pub zero_disk_entry : DiskEntry
zero_disk_entry = record {
  node_major = "0";
  node_minor = "0";
  name = "0";
  reads_completed = "0";
  reads_merged = "0";
  reads_spent_ms = "0";
  writes_completed = "0";
  writes_merged = "0";
  writes_spent_ms = "0";
  io_in_progress = "0";
  io_spent_ms = "0";
  io_weighted_ms = "0";
}

abbrev pub zero_sys_proc_disk_stats : SysProcDiskStats
zero_sys_proc_disk_stats = record { disk = zero_disk_entry ∷ [] }

abbrev pub zero_pressure_data : PressureData
zero_pressure_data = record { avg10 = "0"; avg60 = "0"; avg300 = "0"; total = "0" }

abbrev pub zero_sys_proc_pressure : SysProcPressure
zero_sys_proc_pressure = record {
  cpu_some = zero_pressure_data;
  cpu_full = zero_pressure_data;
  mem_some = zero_pressure_data;
  mem_full = zero_pressure_data;
  io_some = zero_pressure_data;
  io_full = zero_pressure_data;
}

abbrev pub zero_buddy_info : BuddyInfo
zero_buddy_info = record { name = "0"; zone = "0"; data' = "0" }

abbrev pub zero_sys_proc_buddy_info : SysProcBuddyInfo
zero_sys_proc_buddy_info = record { node = zero_buddy_info ∷ [] }

abbrev pub zero_wireless_interface : WirelessInterface
zero_wireless_interface = record {
  name = "0";
  status = "0";
  quality_link = "0";
  quality_level = "0";
  quality_noise = "0";
  discarded_nwid = "0";
  discarded_crypt = "0";
  discarded_frag = "0";
  discarded_retry = "0";
  discarded_misc = "0";
  missed_beacon = "0";
}

abbrev pub zero_sys_proc_wireless : SysProcWireless
zero_sys_proc_wireless = record { ifw = zero_wireless_interface ∷ [] }

abbrev pub zero_sys_proc_vm_stat : SysProcVmStat
zero_sys_proc_vm_stat = record {
  pgpgin = "0";
  pgpgout = "0";
  pswpin = "0";
  pswpout = "0";
  pgmajfault = "0";
  pgreuse = "0";
  pgsteal_kswapd = "0";
  pgsteal_direct = "0";
  pgsteal_khugepaged = "0";
  pgsteal_anon = "0";
  pgsteal_file = "0";
  pgscan_kswapd = "0";
  pgscan_direct = "0";
  pgscan_khugepaged = "0";
  pgscan_direct_throttle = "0";
  pgscan_anon = "0";
  pgscan_file = "0";
  oom_kill = "0";
  compact_stall = "0";
  compact_fail = "0";
  compact_success = "0";
  thp_fault_alloc = "0";
  thp_collapse_alloc = "0";
  thp_collapse_alloc_failed = "0";
  thp_file_alloc = "0";
  thp_file_mapped = "0";
  thp_split_page = "0";
  thp_split_page_failed = "0";
  thp_zero_page_alloc = "0";
  thp_zero_page_alloc_failed = "0";
  thp_swpout = "0";
  thp_swpout_fallback = "0";
}

abbrev pub unpack_zeros : UnpackData
unpack_zeros = record {
  proc_event = λ _. zero_proc_event;
  proc_acct = λ _. zero_proc_acct;
  proc_info = λ _. zero_proc_info;
  context_info = λ _. zero_context_info;
  sys_proc_stat = λ _. zero_sys_proc_stat;
  sys_proc_buddy_info = λ _. zero_sys_proc_buddy_info;
  sys_proc_wireless = λ _. zero_sys_proc_wireless;
  sys_proc_mem_info = λ _. zero_sys_proc_mem_info;
  sys_proc_pressure = λ _. zero_sys_proc_pressure;
  sys_proc_disk_stats = λ _. zero_sys_proc_disk_stats;
  sys_proc_vm_stat = λ _. zero_sys_proc_vm_stat;
}

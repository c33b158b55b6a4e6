-- ===== src/Messages/Process.antt =====
-- Messages of the processes' data. The messages belong to libtaskmonitor: the records have
-- the fields that the source reads, each as the text that a stream writes for it.
use tkmcollector.Prelude.{String, List}

-- msg::monitor::ProcEvent
pub record ProcEvent : Type 0 where
  pub fork_count : String
  pub exec_count : String
  pub exit_count : String
  pub uid_count : String
  pub gid_count : String

-- a part of msg::monitor::ProcAcct
pub record AcctCpu : Type 0 where
  pub cpu_count : String
  pub cpu_run_real_total : String
  pub cpu_run_virtual_total : String
  pub cpu_delay_total : String
  pub cpu_delay_average : String

-- a part of msg::monitor::ProcAcct
pub record AcctMem : Type 0 where
  pub coremem : String
  pub virtmem : String
  pub hiwater_rss : String
  pub hiwater_vm : String

-- a part of msg::monitor::ProcAcct
pub record AcctCtx : Type 0 where
  pub nvcsw : String
  pub nivcsw : String

-- a part of msg::monitor::ProcAcct
pub record AcctSwp : Type 0 where
  pub swapin_count : String
  pub swapin_delay_total : String
  pub swapin_delay_average : String

-- a part of msg::monitor::ProcAcct
pub record AcctIo : Type 0 where
  pub blkio_count : String
  pub blkio_delay_total : String
  pub blkio_delay_average : String
  pub read_bytes : String
  pub write_bytes : String
  pub read_char : String
  pub write_char : String
  pub read_syscalls : String
  pub write_syscalls : String

-- a part of msg::monitor::ProcAcct
pub record AcctReclaim : Type 0 where
  pub freepages_count : String
  pub freepages_delay_total : String
  pub freepages_delay_average : String

-- a part of msg::monitor::ProcAcct
pub record AcctThrashing : Type 0 where
  pub thrashing_count : String
  pub thrashing_delay_total : String
  pub thrashing_delay_average : String

-- msg::monitor::ProcAcct
pub record ProcAcct : Type 0 where
  pub ac_comm : String
  pub ac_uid : String
  pub ac_gid : String
  pub ac_pid : String
  pub ac_ppid : String
  pub ac_utime : String
  pub ac_stime : String
  pub cpu : AcctCpu
  pub mem : AcctMem
  pub ctx : AcctCtx
  pub swp : AcctSwp
  pub io : AcctIo
  pub reclaim : AcctReclaim
  pub thrashing : AcctThrashing

-- an entry of msg::monitor::ProcInfo
pub record ProcEntry : Type 0 where
  pub comm : String
  pub pid : String
  pub ppid : String
  pub ctx_id : String
  pub ctx_name : String
  pub cpu_time : String
  pub cpu_percent : String
  pub mem_rss : String
  pub mem_pss : String
  pub fd_count : String

-- msg::monitor::ProcInfo
pub record ProcInfo : Type 0 where
  pub entry : List ProcEntry

-- an entry of msg::monitor::ContextInfo
pub record ContextEntry : Type 0 where
  pub ctx_id : String
  pub ctx_name : String
  pub total_cpu_time : String
  pub total_cpu_percent : String
  pub total_mem_rss : String
  pub total_mem_pss : String
  pub total_fd_count : String

-- msg::monitor::ContextInfo
pub record ContextInfo : Type 0 where
  pub entry : List ContextEntry

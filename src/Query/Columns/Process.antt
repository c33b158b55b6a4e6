-- ===== src/Query/Columns/Process.antt =====
-- The columns of the tables with the data of the processes (source/Query.h).
use tkmcollector.Prelude.{String}

-- Query::ProcEventColumn
pub data ProcEventColumn : Type 0 where
  id system_time monotonic_time receive_time fork_count exec_count exit_count uid_count gid_count
        session_id :
      ProcEventColumn

-- Query::m_procEventColumn
abbrev pub proc_event_column : ProcEventColumn → String
proc_event_column ProcEventColumn.id = "Id"
proc_event_column ProcEventColumn.system_time = "SystemTime"
proc_event_column ProcEventColumn.monotonic_time = "MonotonicTime"
proc_event_column ProcEventColumn.receive_time = "ReceiveTime"
proc_event_column ProcEventColumn.fork_count = "ForkCount"
proc_event_column ProcEventColumn.exec_count = "ExecCount"
proc_event_column ProcEventColumn.exit_count = "ExitCount"
proc_event_column ProcEventColumn.uid_count = "UIdCount"
proc_event_column ProcEventColumn.gid_count = "GIdCount"
proc_event_column ProcEventColumn.session_id = "SessionId"

-- Query::ProcAcctColumn
pub data ProcAcctColumn : Type 0 where
  id system_time monotonic_time receive_time ac_comm ac_uid ac_gid ac_pid ac_p_pid ac_u_time
        ac_s_time cpu_count cpu_run_real_total cpu_run_virtual_total cpu_delay_total
        cpu_delay_average core_mem virt_mem hiwater_rss hiwater_vm nvcsw nivcsw swapin_count
        swapin_delay_total swapin_delay_average blk_io_count blk_io_delay_total blk_io_delay_average
        io_storage_read_bytes io_storage_write_bytes io_read_char io_write_char io_read_syscalls
        io_write_syscalls free_pages_count free_pages_delay_total free_pages_delay_average
        thrashing_count thrashing_delay_total thrashing_delay_average session_id :
      ProcAcctColumn

-- Query::m_procAcctColumn
abbrev pub proc_acct_column : ProcAcctColumn → String
proc_acct_column ProcAcctColumn.id = "Id"
proc_acct_column ProcAcctColumn.system_time = "SystemTime"
proc_acct_column ProcAcctColumn.monotonic_time = "MonotonicTime"
proc_acct_column ProcAcctColumn.receive_time = "ReceiveTime"
proc_acct_column ProcAcctColumn.ac_comm = "AcComm"
proc_acct_column ProcAcctColumn.ac_uid = "AcUid"
proc_acct_column ProcAcctColumn.ac_gid = "AcGid"
proc_acct_column ProcAcctColumn.ac_pid = "AcPid"
proc_acct_column ProcAcctColumn.ac_p_pid = "AcPPid"
proc_acct_column ProcAcctColumn.ac_u_time = "AcUTime"
proc_acct_column ProcAcctColumn.ac_s_time = "AcSTime"
proc_acct_column ProcAcctColumn.cpu_count = "CpuCount"
proc_acct_column ProcAcctColumn.cpu_run_real_total = "CpuRunRealTotal"
proc_acct_column ProcAcctColumn.cpu_run_virtual_total = "CpuRunVirtualTotal"
proc_acct_column ProcAcctColumn.cpu_delay_total = "CpuDelayTotal"
proc_acct_column ProcAcctColumn.cpu_delay_average = "CpuDelayAverage"
proc_acct_column ProcAcctColumn.core_mem = "CoreMem"
proc_acct_column ProcAcctColumn.virt_mem = "VirtMem"
proc_acct_column ProcAcctColumn.hiwater_rss = "HiwaterRss"
proc_acct_column ProcAcctColumn.hiwater_vm = "HiwaterVm"
proc_acct_column ProcAcctColumn.nvcsw = "Nvcsw"
proc_acct_column ProcAcctColumn.nivcsw = "Nivcsw"
proc_acct_column ProcAcctColumn.swapin_count = "SwapinCount"
proc_acct_column ProcAcctColumn.swapin_delay_total = "SwapinDelayTotal"
proc_acct_column ProcAcctColumn.swapin_delay_average = "SwapinDelayAverage"
proc_acct_column ProcAcctColumn.blk_io_count = "BlkIOCount"
proc_acct_column ProcAcctColumn.blk_io_delay_total = "BlkIODelayTotal"
proc_acct_column ProcAcctColumn.blk_io_delay_average = "BlkIODelayAverage"
proc_acct_column ProcAcctColumn.io_storage_read_bytes = "IOStorageReadBytes"
proc_acct_column ProcAcctColumn.io_storage_write_bytes = "IOStorageWriteBytes"
proc_acct_column ProcAcctColumn.io_read_char = "IOReadChar"
proc_acct_column ProcAcctColumn.io_write_char = "IOWriteChar"
proc_acct_column ProcAcctColumn.io_read_syscalls = "IOReadSyscalls"
proc_acct_column ProcAcctColumn.io_write_syscalls = "IOWriteSyscalls"
proc_acct_column ProcAcctColumn.free_pages_count = "FreePagesCount"
proc_acct_column ProcAcctColumn.free_pages_delay_total = "FreePagesDelayTotal"
proc_acct_column ProcAcctColumn.free_pages_delay_average = "FreePagesDelayAverage"
proc_acct_column ProcAcctColumn.thrashing_count = "ThrashingCount"
proc_acct_column ProcAcctColumn.thrashing_delay_total = "ThrashingDelayTotal"
proc_acct_column ProcAcctColumn.thrashing_delay_average = "ThrashingDelayAverage"
proc_acct_column ProcAcctColumn.session_id = "SessionId"

-- Query::ProcInfoColumn
pub data ProcInfoColumn : Type 0 where
  id system_time monotonic_time receive_time comm pid p_pid ctx_id ctx_name cpu_time cpu_percent
        mem_rss mem_pss fd_count session_id :
      ProcInfoColumn

-- Query::m_procInfoColumn
abbrev pub proc_info_column : ProcInfoColumn → String
proc_info_column ProcInfoColumn.id = "Id"
proc_info_column ProcInfoColumn.system_time = "SystemTime"
proc_info_column ProcInfoColumn.monotonic_time = "MonotonicTime"
proc_info_column ProcInfoColumn.receive_time = "ReceiveTime"
proc_info_column ProcInfoColumn.comm = "Comm"
proc_info_column ProcInfoColumn.pid = "PID"
proc_info_column ProcInfoColumn.p_pid = "PPID"
proc_info_column ProcInfoColumn.ctx_id = "ContextId"
proc_info_column ProcInfoColumn.ctx_name = "ContextName"
proc_info_column ProcInfoColumn.cpu_time = "CpuTime"
proc_info_column ProcInfoColumn.cpu_percent = "CpuPercent"
proc_info_column ProcInfoColumn.mem_rss = "MemRSS"
proc_info_column ProcInfoColumn.mem_pss = "MemPSS"
proc_info_column ProcInfoColumn.fd_count = "FDCount"
proc_info_column ProcInfoColumn.session_id = "SessionId"

-- Query::ContextInfoColumn
pub data ContextInfoColumn : Type 0 where
  id system_time monotonic_time receive_time ctx_id ctx_name total_cpu_time total_cpu_percent
        total_mem_rss total_mem_pss total_fd_count session_id :
      ContextInfoColumn

-- Query::m_contextInfoColumn
abbrev pub context_info_column : ContextInfoColumn → String
context_info_column ContextInfoColumn.id = "Id"
context_info_column ContextInfoColumn.system_time = "SystemTime"
context_info_column ContextInfoColumn.monotonic_time = "MonotonicTime"
context_info_column ContextInfoColumn.receive_time = "ReceiveTime"
context_info_column ContextInfoColumn.ctx_id = "ContextId"
context_info_column ContextInfoColumn.ctx_name = "ContextName"
context_info_column ContextInfoColumn.total_cpu_time = "TotalCpuTime"
context_info_column ContextInfoColumn.total_cpu_percent = "TotalCpuPercent"
context_info_column ContextInfoColumn.total_mem_rss = "TotalMemRSS"
context_info_column ContextInfoColumn.total_mem_pss = "TotalMemPSS"
context_info_column ContextInfoColumn.total_fd_count = "TotalFDCount"
context_info_column ContextInfoColumn.session_id = "SessionId"

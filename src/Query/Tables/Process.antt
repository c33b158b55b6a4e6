-- ===== src/Query/Tables/Process.antt =====
-- `createTables` of source/Query.cpp: the tables of the processes' data.
use tkmcollector.Prelude.{[], ◌∷◌}
use tkmcollector.Query.Columns.Process.{
  ProcEventColumn, proc_event_column, ProcAcctColumn, proc_acct_column, ProcInfoColumn,
  proc_info_column, ContextInfoColumn, context_info_column,
}
use tkmcollector.Query.Schema.{Table, int, key, text, wide, session_key}

unfoldable pub proc_event : Table
proc_event = record {
  name = "tkmProcEvent";
  columns =
      (proc_event_column ProcEventColumn.id, key)
      ∷ (proc_event_column ProcEventColumn.system_time, wide)
      ∷ (proc_event_column ProcEventColumn.monotonic_time, wide)
      ∷ (proc_event_column ProcEventColumn.receive_time, wide)
      ∷ (proc_event_column ProcEventColumn.fork_count, wide)
      ∷ (proc_event_column ProcEventColumn.exec_count, wide)
      ∷ (proc_event_column ProcEventColumn.exit_count, wide)
      ∷ (proc_event_column ProcEventColumn.uid_count, wide)
      ∷ (proc_event_column ProcEventColumn.gid_count, wide)
      ∷ (proc_event_column ProcEventColumn.session_id, int)
      ∷ [];
  reference = session_key (proc_event_column ProcEventColumn.session_id);
}

unfoldable pub proc_acct : Table
proc_acct = record {
  name = "tkmProcAcct";
  columns =
      (proc_acct_column ProcAcctColumn.id, key)
      ∷ (proc_acct_column ProcAcctColumn.system_time, wide)
      ∷ (proc_acct_column ProcAcctColumn.monotonic_time, wide)
      ∷ (proc_acct_column ProcAcctColumn.receive_time, wide)
      ∷ (proc_acct_column ProcAcctColumn.ac_comm, text)
      ∷ (proc_acct_column ProcAcctColumn.ac_uid, wide)
      ∷ (proc_acct_column ProcAcctColumn.ac_gid, wide)
      ∷ (proc_acct_column ProcAcctColumn.ac_pid, wide)
      ∷ (proc_acct_column ProcAcctColumn.ac_p_pid, wide)
      ∷ (proc_acct_column ProcAcctColumn.ac_u_time, wide)
      ∷ (proc_acct_column ProcAcctColumn.ac_s_time, wide)
      ∷ (proc_acct_column ProcAcctColumn.cpu_count, wide)
      ∷ (proc_acct_column ProcAcctColumn.cpu_run_real_total, wide)
      ∷ (proc_acct_column ProcAcctColumn.cpu_run_virtual_total, wide)
      ∷ (proc_acct_column ProcAcctColumn.cpu_delay_total, wide)
      ∷ (proc_acct_column ProcAcctColumn.cpu_delay_average, wide)
      ∷ (proc_acct_column ProcAcctColumn.core_mem, wide)
      ∷ (proc_acct_column ProcAcctColumn.virt_mem, wide)
      ∷ (proc_acct_column ProcAcctColumn.hiwater_rss, wide)
      ∷ (proc_acct_column ProcAcctColumn.hiwater_vm, wide)
      ∷ (proc_acct_column ProcAcctColumn.nvcsw, wide)
      ∷ (proc_acct_column ProcAcctColumn.nivcsw, wide)
      ∷ (proc_acct_column ProcAcctColumn.swapin_count, wide)
      ∷ (proc_acct_column ProcAcctColumn.swapin_delay_total, wide)
      ∷ (proc_acct_column ProcAcctColumn.swapin_delay_average, wide)
      ∷ (proc_acct_column ProcAcctColumn.blk_io_count, wide)
      ∷ (proc_acct_column ProcAcctColumn.blk_io_delay_total, wide)
      ∷ (proc_acct_column ProcAcctColumn.blk_io_delay_average, wide)
      ∷ (proc_acct_column ProcAcctColumn.io_storage_read_bytes, wide)
      ∷ (proc_acct_column ProcAcctColumn.io_storage_write_bytes, wide)
      ∷ (proc_acct_column ProcAcctColumn.io_read_char, wide)
      ∷ (proc_acct_column ProcAcctColumn.io_write_char, wide)
      ∷ (proc_acct_column ProcAcctColumn.io_read_syscalls, wide)
      ∷ (proc_acct_column ProcAcctColumn.io_write_syscalls, wide)
      ∷ (proc_acct_column ProcAcctColumn.free_pages_count, wide)
      ∷ (proc_acct_column ProcAcctColumn.free_pages_delay_total, wide)
      ∷ (proc_acct_column ProcAcctColumn.free_pages_delay_average, wide)
      ∷ (proc_acct_column ProcAcctColumn.thrashing_count, wide)
      ∷ (proc_acct_column ProcAcctColumn.thrashing_delay_total, wide)
      ∷ (proc_acct_column ProcAcctColumn.thrashing_delay_average, wide)
      ∷ (proc_acct_column ProcAcctColumn.session_id, int)
      ∷ [];
  reference = session_key (proc_acct_column ProcAcctColumn.session_id);
}

unfoldable pub proc_info : Table
proc_info = record {
  name = "tkmProcInfo";
  columns =
      (proc_info_column ProcInfoColumn.id, key)
      ∷ (proc_info_column ProcInfoColumn.system_time, wide)
      ∷ (proc_info_column ProcInfoColumn.monotonic_time, wide)
      ∷ (proc_info_column ProcInfoColumn.receive_time, wide)
      ∷ (proc_info_column ProcInfoColumn.comm, text)
      ∷ (proc_info_column ProcInfoColumn.pid, wide)
      ∷ (proc_info_column ProcInfoColumn.p_pid, wide)
      ∷ (proc_info_column ProcInfoColumn.ctx_id, text)
      ∷ (proc_info_column ProcInfoColumn.ctx_name, text)
      ∷ (proc_info_column ProcInfoColumn.cpu_time, wide)
      ∷ (proc_info_column ProcInfoColumn.cpu_percent, wide)
      ∷ (proc_info_column ProcInfoColumn.mem_rss, wide)
      ∷ (proc_info_column ProcInfoColumn.mem_pss, wide)
      ∷ (proc_info_column ProcInfoColumn.fd_count, wide)
      ∷ (proc_info_column ProcInfoColumn.session_id, int)
      ∷ [];
  reference = session_key (proc_info_column ProcInfoColumn.session_id);
}

unfoldable pub context_info : Table
context_info = record {
  name = "tkmContextInfo";
  columns =
      (context_info_column ContextInfoColumn.id, key)
      ∷ (context_info_column ContextInfoColumn.system_time, wide)
      ∷ (context_info_column ContextInfoColumn.monotonic_time, wide)
      ∷ (context_info_column ContextInfoColumn.receive_time, wide)
      ∷ (context_info_column ContextInfoColumn.ctx_id, text)
      ∷ (context_info_column ContextInfoColumn.ctx_name, text)
      ∷ (context_info_column ContextInfoColumn.total_cpu_time, wide)
      ∷ (context_info_column ContextInfoColumn.total_cpu_percent, wide)
      ∷ (context_info_column ContextInfoColumn.total_mem_rss, wide)
      ∷ (context_info_column ContextInfoColumn.total_mem_pss, wide)
      ∷ (context_info_column ContextInfoColumn.total_fd_count, wide)
      ∷ (context_info_column ContextInfoColumn.session_id, int)
      ∷ [];
  reference = session_key (context_info_column ContextInfoColumn.session_id);
}

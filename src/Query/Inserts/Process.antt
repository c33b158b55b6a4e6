-- ===== src/Query/Inserts/Process.antt =====
-- `addData` of source/Query.cpp: the rows of the processes' data.
use tkmcollector.Prelude.{List, [], ◌∷◌, ◌++◌, map}
use tkmcollector.Messages.Process.{
  ProcEvent, ProcAcct, ProcEntry, ProcInfo, ContextEntry, ContextInfo,
}
use tkmcollector.Query.Columns.Process.{
  ProcEventColumn, proc_event_column, ProcAcctColumn, proc_acct_column, ProcInfoColumn,
  proc_info_column, ContextInfoColumn, context_info_column,
}
use tkmcollector.Query.Insert.{Insert, Times, names, stamps}

unfoldable pub proc_event_insert : Times → ProcEvent → Insert
proc_event_insert times row = record {
  table = "tkmProcEvent";
  columns = names proc_event_column (
      ProcEventColumn.system_time ∷ ProcEventColumn.monotonic_time ∷ ProcEventColumn.receive_time
      ∷ ProcEventColumn.fork_count ∷ ProcEventColumn.exec_count ∷ ProcEventColumn.exit_count
      ∷ ProcEventColumn.uid_count ∷ ProcEventColumn.gid_count ∷ ProcEventColumn.session_id ∷ []);
  values =
      stamps times
      ++ row.fork_count ∷ row.exec_count ∷ row.exit_count ∷ row.uid_count ∷ row.gid_count ∷ [];
}

unfoldable pub proc_acct_insert : Times → ProcAcct → Insert
proc_acct_insert times row = record {
  table = "tkmProcAcct";
  columns = names proc_acct_column (
      ProcAcctColumn.system_time ∷ ProcAcctColumn.monotonic_time ∷ ProcAcctColumn.receive_time
      ∷ ProcAcctColumn.ac_comm ∷ ProcAcctColumn.ac_uid ∷ ProcAcctColumn.ac_gid
      ∷ ProcAcctColumn.ac_pid ∷ ProcAcctColumn.ac_p_pid ∷ ProcAcctColumn.ac_u_time
      ∷ ProcAcctColumn.ac_s_time ∷ ProcAcctColumn.cpu_count ∷ ProcAcctColumn.cpu_run_real_total
      ∷ ProcAcctColumn.cpu_run_virtual_total ∷ ProcAcctColumn.cpu_delay_total
      ∷ ProcAcctColumn.cpu_delay_average ∷ ProcAcctColumn.core_mem ∷ ProcAcctColumn.virt_mem
      ∷ ProcAcctColumn.hiwater_rss ∷ ProcAcctColumn.hiwater_vm ∷ ProcAcctColumn.nvcsw
      ∷ ProcAcctColumn.nivcsw ∷ ProcAcctColumn.swapin_count ∷ ProcAcctColumn.swapin_delay_total
      ∷ ProcAcctColumn.swapin_delay_average ∷ ProcAcctColumn.blk_io_count
      ∷ ProcAcctColumn.blk_io_delay_total ∷ ProcAcctColumn.blk_io_delay_average
      ∷ ProcAcctColumn.io_storage_read_bytes ∷ ProcAcctColumn.io_storage_write_bytes
      ∷ ProcAcctColumn.io_read_char ∷ ProcAcctColumn.io_write_char ∷ ProcAcctColumn.io_read_syscalls
      ∷ ProcAcctColumn.io_write_syscalls ∷ ProcAcctColumn.free_pages_count
      ∷ ProcAcctColumn.free_pages_delay_total ∷ ProcAcctColumn.free_pages_delay_average
      ∷ ProcAcctColumn.thrashing_count ∷ ProcAcctColumn.thrashing_delay_total
      ∷ ProcAcctColumn.thrashing_delay_average ∷ ProcAcctColumn.session_id ∷ []);
  values =
      stamps times
      ++ row.ac_comm ∷ row.ac_uid ∷ row.ac_gid ∷ row.ac_pid ∷ row.ac_ppid ∷ row.ac_utime
        ∷ row.ac_stime ∷ row.cpu.cpu_count ∷ row.cpu.cpu_run_real_total
        ∷ row.cpu.cpu_run_virtual_total ∷ row.cpu.cpu_delay_total ∷ row.cpu.cpu_delay_average
        ∷ row.mem.coremem ∷ row.mem.virtmem ∷ row.mem.hiwater_rss ∷ row.mem.hiwater_vm
        ∷ row.ctx.nvcsw ∷ row.ctx.nivcsw ∷ row.swp.swapin_count ∷ row.swp.swapin_delay_total
        ∷ row.swp.swapin_delay_average ∷ row.io.blkio_count ∷ row.io.blkio_delay_total
        ∷ row.io.blkio_delay_average ∷ row.io.read_bytes ∷ row.io.write_bytes ∷ row.io.read_char
        ∷ row.io.write_char ∷ row.io.read_syscalls ∷ row.io.write_syscalls
        ∷ row.reclaim.freepages_count ∷ row.reclaim.freepages_delay_total
        ∷ row.reclaim.freepages_delay_average ∷ row.thrashing.thrashing_count
        ∷ row.thrashing.thrashing_delay_total ∷ row.thrashing.thrashing_delay_average ∷ [];
}

unfoldable pub proc_info_insert : Times → ProcEntry → Insert
proc_info_insert times row = record {
  table = "tkmProcInfo";
  columns = names proc_info_column (
      ProcInfoColumn.system_time ∷ ProcInfoColumn.monotonic_time ∷ ProcInfoColumn.receive_time
      ∷ ProcInfoColumn.comm ∷ ProcInfoColumn.pid ∷ ProcInfoColumn.p_pid ∷ ProcInfoColumn.ctx_id
      ∷ ProcInfoColumn.ctx_name ∷ ProcInfoColumn.cpu_time ∷ ProcInfoColumn.cpu_percent
      ∷ ProcInfoColumn.mem_rss ∷ ProcInfoColumn.mem_pss ∷ ProcInfoColumn.fd_count
      ∷ ProcInfoColumn.session_id ∷ []);
  values =
      stamps times
      ++ row.comm ∷ row.pid ∷ row.ppid ∷ row.ctx_id ∷ row.ctx_name ∷ row.cpu_time ∷ row.cpu_percent
        ∷ row.mem_rss ∷ row.mem_pss ∷ row.fd_count ∷ [];
}

unfoldable pub proc_info_inserts : Times → ProcInfo → List Insert
unfolding proc_info_insert
proc_info_inserts times m = map (proc_info_insert times) m.entry

unfoldable pub context_info_insert : Times → ContextEntry → Insert
context_info_insert times row = record {
  table = "tkmContextInfo";
  columns = names context_info_column (
      ContextInfoColumn.system_time ∷ ContextInfoColumn.monotonic_time
      ∷ ContextInfoColumn.receive_time ∷ ContextInfoColumn.ctx_id ∷ ContextInfoColumn.ctx_name
      ∷ ContextInfoColumn.total_cpu_time ∷ ContextInfoColumn.total_cpu_percent
      ∷ ContextInfoColumn.total_mem_rss ∷ ContextInfoColumn.total_mem_pss
      ∷ ContextInfoColumn.total_fd_count ∷ ContextInfoColumn.session_id ∷ []);
  values =
      stamps times
      ++ row.ctx_id ∷ row.ctx_name ∷ row.total_cpu_time ∷ row.total_cpu_percent ∷ row.total_mem_rss
        ∷ row.total_mem_pss ∷ row.total_fd_count ∷ [];
}

unfoldable pub context_info_inserts : Times → ContextInfo → List Insert
unfolding context_info_insert
context_info_inserts times m = map (context_info_insert times) m.entry

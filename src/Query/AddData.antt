-- ===== src/Query/AddData.antt =====
-- `addData` of source/Query.cpp: the rows and the text for a payload.
pub mod Columns
use tkmcollector.Prelude.{String, List, [], ◌∷◌}
use tkmcollector.Messages.Payload.{Payload}
use tkmcollector.Query.Schema.{Backend}
use tkmcollector.Query.Insert.{Insert, Times, insert_texts}
use tkmcollector.Query.Inserts.Process.{
  proc_event_insert, proc_acct_insert, proc_info_inserts, context_info_inserts,
}
use tkmcollector.Query.Inserts.System.{
  sys_proc_stat_inserts, sys_proc_mem_info_insert, sys_proc_disk_stats_inserts,
  sys_proc_pressure_insert,
}
use tkmcollector.Query.Inserts.Kernel.{
  sys_proc_buddy_info_inserts, sys_proc_wireless_inserts, sys_proc_vm_stat_insert,
}

-- The overloads of addData.
abbrev pub inserts : Times → Payload → List Insert
inserts t (Payload.proc_event m) = proc_event_insert t m ∷ []
inserts t (Payload.proc_acct m) = proc_acct_insert t m ∷ []
inserts t (Payload.proc_info m) = proc_info_inserts t m
inserts t (Payload.context_info m) = context_info_inserts t m
inserts t (Payload.sys_proc_stat m) = sys_proc_stat_inserts t m
inserts t (Payload.sys_proc_buddy_info m) = sys_proc_buddy_info_inserts t m
inserts t (Payload.sys_proc_wireless m) = sys_proc_wireless_inserts t m
inserts t (Payload.sys_proc_mem_info m) = sys_proc_mem_info_insert t m ∷ []
inserts t (Payload.sys_proc_pressure m) = sys_proc_pressure_insert t m ∷ []
inserts t (Payload.sys_proc_disk_stats m) = sys_proc_disk_stats_inserts t m
inserts t (Payload.sys_proc_vm_stat m) = sys_proc_vm_stat_insert t m ∷ []

unfoldable pub add_data : Backend → String → Times → Payload → String
unfolding insert_texts
add_data b hash times m = insert_texts b hash (inserts times m)

-- ===== src/Query/Tables.antt =====
-- `createTables` and `dropTables` of source/Query.cpp.
pub mod Process
pub mod System
pub mod Kernel
use tkmcollector.Prelude.{String, none, some, List, [], ◌∷◌, ◌<>◌, ◌≡◌, refl, map}
use tkmcollector.Query.Columns.{DeviceColumn, SessionColumn, device_column, session_column}
use tkmcollector.Query.Schema.{Backend, Table, int, key, text, wide, create_table}
use Process.{proc_event, proc_acct, proc_info, context_info}
use System.{sys_proc_stat, sys_proc_mem_info, sys_proc_disk_stats, sys_proc_pressure}
use Kernel.{sys_proc_vm_stat, sys_proc_buddy_info, sys_proc_wireless}

unfoldable pub devices : Table
devices = record {
  name = "tkmDevices";
  columns =
      (device_column DeviceColumn.id, key)
      ∷ (device_column DeviceColumn.hash, text)
      ∷ (device_column DeviceColumn.name, text)
      ∷ (device_column DeviceColumn.address, text)
      ∷ (device_column DeviceColumn.port, int)
      ∷ [];
  reference = none;
}

unfoldable pub sessions : Table
sessions = record {
  name = "tkmSessions";
  columns =
      (session_column SessionColumn.id, key)
      ∷ (session_column SessionColumn.name, text)
      ∷ (session_column SessionColumn.hash, text)
      ∷ (session_column SessionColumn.core_count, wide)
      ∷ (session_column SessionColumn.start_timestamp, wide)
      ∷ (session_column SessionColumn.end_timestamp, wide)
      ∷ (session_column SessionColumn.device, int)
      ∷ [];
  reference = some (record {
    constraint = "KFDevice";
    column = session_column SessionColumn.device;
    table = "tkmDevices";
  });
}

-- In the order of the source.
unfoldable pub created : List Table
created =
    devices ∷ sessions ∷ proc_event ∷ sys_proc_stat ∷ sys_proc_mem_info ∷ sys_proc_disk_stats
    ∷ sys_proc_pressure ∷ sys_proc_vm_stat ∷ proc_acct ∷ proc_info ∷ context_info
    ∷ sys_proc_buddy_info ∷ sys_proc_wireless ∷ []

texts : (Table → String) → List Table → String
texts f [] = ""
texts f (t ∷ ts) = f t <> texts f ts

unfoldable pub create_tables : Backend → String
unfolding texts
create_tables b = texts (create_table b) created

-- The names that dropTables lists, in its order.
unfoldable pub dropped : List String
dropped =
    "tkmDevices" ∷ "tkmSessions" ∷ "tkmSysProcStat" ∷ "tkmSysProcMemInfo" ∷ "tkmSysProcDiskStats"
    ∷ "tkmSysProcPressure" ∷ "tkmSysProcBuddyInfo" ∷ "tkmSysProcWireless" ∷ "tkmSysProcVMStat"
    ∷ "tkmProcAcct" ∷ "tkmProcInfo" ∷ "tkmProcEvent" ∷ "tkmContextInfo" ∷ []

drop_table : Backend → String → String
drop_table Backend.sqlite3 name = "DROP TABLE IF EXISTS " <> name <> ";"
drop_table Backend.postgresql name = "DROP TABLE IF EXISTS " <> name <> " CASCADE;"

drop_each : Backend → List String → String
drop_each b [] = ""
drop_each b (n ∷ ns) = drop_table b n <> drop_each b ns

unfoldable pub drop_tables : Backend → String
unfolding drop_table drop_each
drop_tables b = drop_each b dropped

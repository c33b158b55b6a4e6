-- ===== src/Query/AddData/Columns.antt =====
-- The rows of data against the tables that `createTables` makes for them.
use tkmcollector.Prelude.{ℕ, suc, String, ◌≡◌, refl, List, [], ◌∷◌, Option, none, some, map}
use tkmcollector.Messages.Payload.{Payload}
use tkmcollector.Query.Schema.{Reference, Table}
use tkmcollector.Query.Insert.{Insert, Times}
use tkmcollector.Query.AddData.{inserts}
use tkmcollector.Query.Tables.Process.{proc_event, proc_acct, proc_info, context_info}
use tkmcollector.Query.Tables.System.{
  sys_proc_stat, sys_proc_mem_info, sys_proc_disk_stats, sys_proc_pressure,
}
use tkmcollector.Query.Tables.Kernel.{sys_proc_vm_stat, sys_proc_buddy_info, sys_proc_wireless}
use tkmcollector.Query.Inserts.Process.{
  proc_event_insert, proc_acct_insert, proc_info_insert, proc_info_inserts, context_info_insert,
  context_info_inserts,
}
use tkmcollector.Query.Inserts.System.{
  sys_proc_stat_insert, sys_proc_stat_inserts, sys_proc_mem_info_insert, sys_proc_disk_stats_insert,
  sys_proc_disk_stats_inserts, sys_proc_pressure_insert,
}
use tkmcollector.Query.Inserts.Kernel.{
  sys_proc_buddy_info_insert, sys_proc_buddy_info_inserts, sys_proc_wireless_insert,
  sys_proc_wireless_inserts, sys_proc_vm_stat_insert,
}

abbrev names_of : {A : Type 0} → List (String × A) → List String
names_of [] = []
names_of ((n, _) ∷ cs) = n ∷ names_of cs

abbrev length : {A : Type 0} → List A → ℕ
length [] = 0
length (x ∷ xs) = suc (length xs)

-- The column of a table's foreign key.
abbrev key_column : Option Reference → List String
key_column none = []
key_column (some r) = r.column ∷ []

abbrev last : List String → List String
last [] = []
last (c ∷ []) = c ∷ []
last (c ∷ d ∷ cs) = last (d ∷ cs)

-- The row names all columns of the table but Id, in the table's order; the last one is its foreign
-- key; and there is a value for each of the others.
pub record Fits (t : Table) (i : Insert) : Type 0 where
  pub same_table : i.table ≡ t.name
  pub all_columns : "Id" ∷ i.columns ≡ names_of t.columns
  pub ends_in_key : last i.columns ≡ key_column t.reference
  pub one_each : suc (length i.values) ≡ length i.columns

abbrev pub AllFit : Table → List Insert → Type 0
AllFit t [] = Unit {0}
AllFit t (i ∷ is) = Fits t i × AllFit t is

AllFit-map :
    {A : Type 0} (t : Table) (f : A → Insert)
    → ((a : A) → Fits t (f a))
    → (as' : List A) → AllFit t (map f as')
AllFit-map t f h [] = tt
AllFit-map t f h (a ∷ as') = (h a, AllFit-map t f h as')

-- The table that a payload's rows go to.
abbrev pub table_of : Payload → Table
table_of (Payload.proc_event m) = proc_event
table_of (Payload.proc_acct m) = proc_acct
table_of (Payload.proc_info m) = proc_info
table_of (Payload.context_info m) = context_info
table_of (Payload.sys_proc_stat m) = sys_proc_stat
table_of (Payload.sys_proc_buddy_info m) = sys_proc_buddy_info
table_of (Payload.sys_proc_wireless m) = sys_proc_wireless
table_of (Payload.sys_proc_mem_info m) = sys_proc_mem_info
table_of (Payload.sys_proc_pressure m) = sys_proc_pressure
table_of (Payload.sys_proc_disk_stats m) = sys_proc_disk_stats
table_of (Payload.sys_proc_vm_stat m) = sys_proc_vm_stat

-- Whatever a monitor sends, each row that addData inserts fits the table that createTables makes for
-- this kind of data: the same table, the table's columns but Id in the table's order, the foreign
-- key last, and one value for every other column.
pub inserts-AllFit : (times : Times) (m : Payload) → AllFit (table_of m) (inserts times m)
unfolding proc_event proc_acct proc_info context_info sys_proc_stat sys_proc_mem_info
    sys_proc_disk_stats sys_proc_pressure sys_proc_vm_stat sys_proc_buddy_info sys_proc_wireless
    proc_event_insert proc_acct_insert proc_info_inserts context_info_inserts sys_proc_stat_inserts
    sys_proc_mem_info_insert sys_proc_disk_stats_inserts sys_proc_pressure_insert
    sys_proc_buddy_info_inserts sys_proc_wireless_inserts sys_proc_vm_stat_insert
inserts-AllFit times (Payload.proc_event m) =
    (record { same_table = refl; all_columns = refl; ends_in_key = refl; one_each = refl }, tt)
inserts-AllFit times (Payload.proc_acct m) =
    (record { same_table = refl; all_columns = refl; ends_in_key = refl; one_each = refl }, tt)
inserts-AllFit times (Payload.proc_info m) =
    AllFit-map proc_info (proc_info_insert times)
      (λ _. record { same_table = refl; all_columns = refl; ends_in_key = refl; one_each = refl })
      m.entry
inserts-AllFit times (Payload.context_info m) =
    AllFit-map context_info (context_info_insert times)
      (λ _. record { same_table = refl; all_columns = refl; ends_in_key = refl; one_each = refl })
      m.entry
inserts-AllFit times (Payload.sys_proc_stat m) =
    AllFit-map sys_proc_stat (sys_proc_stat_insert times)
      (λ _. record { same_table = refl; all_columns = refl; ends_in_key = refl; one_each = refl })
      (m.cpu ∷ m.core)
inserts-AllFit times (Payload.sys_proc_buddy_info m) =
    AllFit-map sys_proc_buddy_info (sys_proc_buddy_info_insert times)
      (λ _. record { same_table = refl; all_columns = refl; ends_in_key = refl; one_each = refl })
      m.node
inserts-AllFit times (Payload.sys_proc_wireless m) =
    AllFit-map sys_proc_wireless (sys_proc_wireless_insert times)
      (λ _. record { same_table = refl; all_columns = refl; ends_in_key = refl; one_each = refl })
      m.ifw
inserts-AllFit times (Payload.sys_proc_mem_info m) =
    (record { same_table = refl; all_columns = refl; ends_in_key = refl; one_each = refl }, tt)
inserts-AllFit times (Payload.sys_proc_pressure m) =
    (record { same_table = refl; all_columns = refl; ends_in_key = refl; one_each = refl }, tt)
inserts-AllFit times (Payload.sys_proc_disk_stats m) =
    AllFit-map sys_proc_disk_stats (sys_proc_disk_stats_insert times)
      (λ _. record { same_table = refl; all_columns = refl; ends_in_key = refl; one_each = refl })
      m.disk
inserts-AllFit times (Payload.sys_proc_vm_stat m) =
    (record { same_table = refl; all_columns = refl; ends_in_key = refl; one_each = refl }, tt)

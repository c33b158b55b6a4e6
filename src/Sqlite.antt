-- ===== src/Sqlite.antt =====
-- source/SQLiteDatabase.cpp: the database's request handlers over SQLite. The C library is an
-- interface: `exec` is `sqlite3_exec` with the rows that it hands to the callback.
pub mod Rows
pub mod Reading
pub mod Devices
pub mod Sessions
pub mod Data
pub mod Handler
use tkmcollector.Prelude.{ℕ, String, Bool, Option, none, some, List, [], if◌then◌else◌}
use tkmcollector.Outcome.{Outcome}
use tkmcollector.SafeList.{SafeList}
use tkmcollector.MonitorDevice.{Device}
use tkmcollector.Database.{State}
use tkmcollector.Exec.{Exec, Effect, ◌>>=◌, ◌>>◌, perform, gets, modify, lift, fault, pure}
use tkmcollector.Requests.{Request, Client}

-- The columns of a row with their texts.
abbrev pub Row : Type 0
Row = List (String × String)

pub record ExecResult (Db : Type 0) : Type 0 where
  pub okay : Bool
  pub rows : List Row
  pub db : Db

pub record Engine : Type 1 where
  pub Db : Type 0
  pub exec : Db → String → ExecResult Db

module _ (e : Engine) {L C : Type 0} where
  -- runQuery: the callback folds the rows into the query's result, also where the query then fails.
  unfoldable pub run_query :
      {A : Type 0} → String → (List Row → Outcome A) → Exec (State e.Db L C) (Bool × A)
  run_query sql callback = do
    perform (Effect.query sql)
    r ← gets (λ s. e.exec s.db sql)
    modify (λ s. record s { db = r.db })
    value ← lift (callback r.rows)
    pure (r.okay, value)

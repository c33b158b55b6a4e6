-- ===== src/Postgres.antt =====
-- source/PQDatabase.cpp: the connection and the transactions. libpqxx is an interface: what a
-- connection answers, and what can be read of a row's fields; a conversion that throws is `none`.
pub mod Rows
pub mod Devices
pub mod Sessions
pub mod Data
pub mod Handler
use tkmcollector.Prelude.{
  ℕ, String, ◌<>◌, Bool, true, Option, none, some, List, [], ◌∷◌, if◌then◌else◌,
}
use tkmcollector.Outcome.{Outcome, runtime_error}
use tkmcollector.Number.{ℤ}
use tkmcollector.Options.{Options, Key, get_for}
use tkmcollector.Requests.{Request, DatabaseAction, BulkData, plain_request}
use tkmcollector.Query.Schema.{Backend}
use tkmcollector.Database.{State}
use tkmcollector.Exec.{Exec, Effect, ◌>>=◌, ◌>>◌, perform, gets, modify, lift, pure}

-- A transaction's rows, unless it throws, and the connection after it.
pub record Transaction (Connection Row : Type 0) : Type 0 where
  pub rows : Option (List Row)
  pub connection : Connection

pub record Pqxx : Type 1 where
  pub Connection : Type 0
  pub Row : Type 0
  pub connect : String → Outcome Connection
  pub is_open : Connection → Bool
  pub transact : Connection → String → Transaction Connection Row
  pub as_long : Row → ℕ → Option ℤ
  pub as_int : Row → ℕ → Option ℤ
  pub as_string : Row → ℕ → Option String

abbrev pub pq : Backend
pq = Backend.postgresql

unfoldable pub connection_info : Options → String
unfolding get_for
connection_info o =
    "dbname = "
    <> get_for o Key.db_name
    <> " "
    <> "user = "
    <> get_for o Key.db_user_name
    <> " "
    <> "password = "
    <> get_for o Key.db_user_password
    <> " "
    <> "hostaddr = "
    <> get_for o Key.db_server_address
    <> " "
    <> "port = "
    <> get_for o Key.db_server_port

-- PQDatabase(): the connection has to be open.
unfoldable pub open_connection : (p : Pqxx) → Options → Outcome p.Connection
unfolding connection_info
open_connection p o = elim (p.connect (connection_info o)) [
  | Outcome.ok c ↦
      if p.is_open c
      then Outcome.ok c
      else Outcome.throws (runtime_error "Fail to open posgress database")
  | Outcome.throws x ↦ Outcome.throws x
  | Outcome.null_pointer ↦ Outcome.null_pointer
]

module _ (p : Pqxx) {L C : Type 0} where
  -- `work` rolls back where `exec` or `commit` throws; each caller catches.
  unfoldable pub run_transaction : String → Exec (State p.Connection L C) (Option (List p.Row))
  run_transaction sql = do
    perform (Effect.query sql)
    t ← gets (λ s. p.transact s.db sql)
    modify (λ s. record s { db = t.connection })
    pure t.rows

  -- The new connection replaces the closed one, also where it is not open itself.
  unfoldable pub reconnect : Options → Exec (State p.Connection L C) Bool
  unfolding connection_info
  reconnect o = do
    open' ← gets (λ s. p.is_open s.db)
    if open' then pure true else do
      c ← lift (p.connect (connection_info o))
      modify (λ s. record s { db = c })
      pure (p.is_open c)

-- ===== src/Postgres/Rows.antt =====
-- What the handlers of source/PQDatabase.cpp read from a transaction's rows, by the position of the
-- column in the enumerations of source/Query.h.
pub mod Columns
use tkmcollector.Prelude.{ℕ, String, Bool, true, false, Option, none, some, List, [], ◌∷◌}
use tkmcollector.Number.{ℤ, minus_one, to_uint64}
use tkmcollector.Messages.{no_session, no_device, DeviceData, SessionData}
use tkmcollector.Query.Columns.{DeviceColumn, SessionColumn}
use tkmcollector.Postgres.{Pqxx}

abbrev pub device_position : DeviceColumn → ℕ
device_position DeviceColumn.id = 0
device_position DeviceColumn.hash = 1
device_position DeviceColumn.name = 2
device_position DeviceColumn.address = 3
device_position DeviceColumn.port = 4

abbrev pub session_position : SessionColumn → ℕ
session_position SessionColumn.id = 0
session_position SessionColumn.name = 1
session_position SessionColumn.hash = 2
session_position SessionColumn.core_count = 3
session_position SessionColumn.start_timestamp = 4
session_position SessionColumn.end_timestamp = 5
session_position SessionColumn.device = 6

-- What follows a conversion that does not throw.
infixl 5 ◌then_read◌
abbrev ◌then_read◌ : {A B : Type 0} → Option A → (A → Option B) → Option B
none then_read f = none
(some a) then_read f = f a

module _ (p : Pqxx) where
  -- The id is read, and may throw; no code uses it.
  unfoldable pub device_row : p.Row → Option DeviceData
  device_row r = p.as_long r (device_position DeviceColumn.id) then_read λ _.
      p.as_string r (device_position DeviceColumn.hash) then_read λ h.
      p.as_string r (device_position DeviceColumn.name) then_read λ n.
      p.as_string r (device_position DeviceColumn.address) then_read λ a.
      p.as_int r (device_position DeviceColumn.port) then_read λ q.
      some (record no_device { hash = h; name = n; address = a; port = q })

  unfoldable pub session_row : p.Row → Option SessionData
  session_row r = p.as_long r (session_position SessionColumn.id) then_read λ _.
      p.as_string r (session_position SessionColumn.hash) then_read λ h.
      p.as_string r (session_position SessionColumn.name) then_read λ n.
      p.as_long r (session_position SessionColumn.start_timestamp) then_read λ b.
      p.as_long r (session_position SessionColumn.end_timestamp) then_read λ e.
      some (record no_session { hash = h; name = n; started = to_uint64 b; ended = to_uint64 e })

  -- The loops over the rows, where any row that cannot be read ends in the `catch`.
  unfoldable pub device_rows : List p.Row → Option (List DeviceData)
  unfolding device_row
  device_rows [] = some []
  device_rows (r ∷ rs) = device_row r then_read λ d. device_rows rs then_read λ ds. some (d ∷ ds)

  unfoldable pub session_rows : List p.Row → Option (List SessionData)
  unfolding session_row
  session_rows [] = some []
  session_rows (r ∷ rs) = session_row r then_read λ s. session_rows rs then_read λ ss. some (s ∷ ss)

  -- Whether the loop over one column ends, and the last id that it has read.
  abbrev id_rows : ℕ → ℤ → List p.Row → Bool × ℤ
  id_rows position found [] = (true, found)
  id_rows position found (r ∷ rs) = elim (p.as_long r position) [
    | none ↦ (false, found)
    | some n ↦ id_rows position n rs
  ]

  -- HasDevice and HasSession: whether nothing threw, and the id or -1.
  unfoldable pub found_id : ℕ → Option (List p.Row) → Bool × ℤ
  found_id position none = (false, minus_one)
  found_id position (some rs) = id_rows position minus_one rs

  -- A list that the code reads inside the `try`.
  abbrev pub read_with : {A : Type 0} → (List p.Row → Option A) → Option (List p.Row) → Option A
  read_with f none = none
  read_with f (some rs) = f rs

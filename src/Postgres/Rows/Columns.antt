-- ===== src/Postgres/Rows/Columns.antt =====
-- The positions that the handlers read agree with the tables that createTables makes.
use tkmcollector.Prelude.{ℕ, zero, suc, String, ◌≡◌, Option, none, some, List, [], ◌∷◌, arith}
use tkmcollector.Query.Schema.{ColumnType}
use tkmcollector.Query.Tables.{devices, sessions}
use tkmcollector.Query.Columns.{DeviceColumn, SessionColumn, device_column, session_column}
use tkmcollector.Postgres.Rows.{device_position, session_position}

abbrev pub name_at : ℕ → List (String × ColumnType) → Option String
name_at n [] = none
name_at zero ((name, _) ∷ cs) = some name
name_at (suc n) (c ∷ cs) = name_at n cs

by_device :
    (c : DeviceColumn) → name_at (device_position c) devices.columns ≡ some (device_column c)
unfolding devices
by_device c = ground arith

by_session :
    (d : SessionColumn) → name_at (session_position d) sessions.columns ≡ some (session_column d)
unfolding sessions
by_session d = ground arith

-- At the position of each column in a row of `SELECT *`, which has the table's columns in their order,
-- stands the column of that name, for both tables that the handlers read by position.
pub device_position-session_position :
    (c : DeviceColumn) (d : SessionColumn)
    → (name_at (device_position c) devices.columns ≡ some (device_column c))
      × (name_at (session_position d) sessions.columns ≡ some (session_column d))
device_position-session_position c d = (by_device c, by_session d)

-- ===== src/Sqlite/Rows/Readable.antt =====
-- Which rows `sqlite_callback` can read (source/SQLiteDatabase.cpp), by their columns alone.
use tkmcollector.Prelude.{
  String, ◌≡◌, ◌∙◌, ◌||◌, inl, inr, ap, Bool-cases, refl, arith, List, [], ◌∷◌, if◌then◌else◌,
  str_eq,
}
use tkmcollector.Outcome.{
  Ending, Outcome, ok, throws, null_pointer, bind, ending, returns, raises, crashes,
}
use tkmcollector.Number.{ℤ, minus_one, stoi, stol, stoul, to_int32}
use tkmcollector.Messages.{DeviceData, SessionData, no_device, no_session}
use tkmcollector.Sqlite.{Row}
use tkmcollector.Sqlite.Rows.{
  device_row, device_rows, found_id, id_column, id_rows, session_row, session_rows,
  set_device_column, set_session_column,
}

-- The second part ends a call whose first part returns.
abbrev pub and_then : Ending → Ending → Ending
and_then returns e = e
and_then raises e = raises
and_then crashes e = crashes

-- How the numbers of a device's, of a session's and of an id's columns are read; other columns are
-- texts.
abbrev pub device_number : String → String → Ending
device_number column value =
    if str_eq column "Id"
    then ending (stol value)
    else if str_eq column "Hash" || str_eq column "Name" || str_eq column "Address"
    then returns
    else if str_eq column "Port"
    then ending (stoi value)
    else returns

abbrev pub session_number : String → String → Ending
session_number column value =
    if str_eq column "Id"
    then ending (stol value)
    else if str_eq column "Hash" || str_eq column "Name"
    then returns
    else if str_eq column "StartTimestamp"
    then ending (stoul value)
    else if str_eq column "EndTimestamp"
    then ending (stoul value)
    else returns

abbrev pub id_number : String → String → Ending
id_number column value = if str_eq column "Id" then ending (stol value) else returns

-- Every column of a row, and every row, is read in its order.
abbrev read_row : (String → String → Ending) → Row → Ending
read_row number [] = returns
read_row number ((column, value) ∷ r) = and_then (number column value) (read_row number r)

abbrev pub read_rows : (String → String → Ending) → List Row → Ending
read_rows number [] = returns
read_rows number (r ∷ rs) = and_then (read_row number r) (read_rows number rs)

and_then_returns : (e : Ending) → and_then e returns ≡ e
and_then_returns returns = refl
and_then_returns raises = refl
and_then_returns crashes = refl

ending-bind :
    {A B : Type 0} (o : Outcome A) (f : A → Outcome B) (first rest : Ending)
    → ending o ≡ first
    → ((a : A) → ending (f a) ≡ rest)
    → ending (bind o f) ≡ and_then first rest
ending-bind (ok a) f first rest h k = k a ∙ ap (λ w. and_then w rest) h
ending-bind (throws x) f first rest h k = ap (λ w. and_then w rest) h
ending-bind null_pointer f first rest h k = ap (λ w. and_then w rest) h

ending-set_device_column :
    (d : DeviceData) (column value : String)
    → ending (set_device_column d column value) ≡ device_number column value
unfolding set_device_column
ending-set_device_column d column value = ground arith

ending-device_row : (d : DeviceData) (r : Row) → ending (device_row d r) ≡ read_row device_number r
unfolding device_row
ending-device_row d [] = refl
ending-device_row d ((column, value) ∷ r) =
    ending-bind (set_device_column d column value) (λ d'. device_row d' r) _ _
      (ending-set_device_column d column value) (λ d'. ending-device_row d' r)

-- Devices are read from their rows as far as the numbers in them are.
pub ending-device_rows : (rs : List Row) → ending (device_rows rs) ≡ read_rows device_number rs
unfolding device_rows
ending-device_rows [] = refl
ending-device_rows (r ∷ rs) =
    ending-bind (device_row no_device r) (λ d. bind (device_rows rs) (λ ds. ok (d ∷ ds))) _ _
      (ending-device_row no_device r)
      (λ d.
        ending-bind (device_rows rs) (λ ds. ok (d ∷ ds)) _ returns (ending-device_rows rs)
          (λ ds. refl)
        ∙ and_then_returns _)

ending-set_session_column :
    (d : SessionData) (column value : String)
    → ending (set_session_column d column value) ≡ session_number column value
unfolding set_session_column
ending-set_session_column d column value = ground arith

ending-session_row :
    (d : SessionData) (r : Row) → ending (session_row d r) ≡ read_row session_number r
unfolding session_row
ending-session_row d [] = refl
ending-session_row d ((column, value) ∷ r) =
    ending-bind (set_session_column d column value) (λ d'. session_row d' r) _ _
      (ending-set_session_column d column value) (λ d'. ending-session_row d' r)

-- Sessions are read from their rows as far as the numbers in them are.
pub ending-session_rows : (rs : List Row) → ending (session_rows rs) ≡ read_rows session_number rs
unfolding session_rows
ending-session_rows [] = refl
ending-session_rows (r ∷ rs) =
    ending-bind (session_row no_session r) (λ d. bind (session_rows rs) (λ ds. ok (d ∷ ds))) _ _
      (ending-session_row no_session r)
      (λ d.
        ending-bind (session_rows rs) (λ ds. ok (d ∷ ds)) _ returns (ending-session_rows rs)
          (λ ds. refl)
        ∙ and_then_returns _)

ending-id_column : (id : ℤ) (r : Row) → ending (id_column id r) ≡ read_row id_number r
unfolding id_column
ending-id_column id [] = refl
ending-id_column id ((column, value) ∷ r) = elim (Bool-cases (str_eq column "Id")) [
  | inl here ↦ rw here (
      ending-bind (stol value) (λ n. id_column (to_int32 n) r) _ _ refl
        (λ n. ending-id_column (to_int32 n) r))
  | inr other ↦ rw other (ending-id_column id r)
]

ending-id_rows : (id : ℤ) (rs : List Row) → ending (id_rows id rs) ≡ read_rows id_number rs
unfolding id_rows
ending-id_rows id [] = refl
ending-id_rows id (r ∷ rs) =
    ending-bind (id_column id r) (λ id'. id_rows id' rs) _ _ (ending-id_column id r)
      (λ id'. ending-id_rows id' rs)

-- An id is read from its rows as far as the numbers in them are.
pub ending-found_id : (rs : List Row) → ending (found_id rs) ≡ read_rows id_number rs
unfolding found_id
ending-found_id rs = ending-id_rows minus_one rs

-- ===== src/Sqlite/Rows.antt =====
-- `sqlite_callback` of source/SQLiteDatabase.cpp: what each kind of query reads from its rows.
pub mod Readable
use tkmcollector.Prelude.{String, List, [], ◌∷◌, if◌then◌else◌, str_eq}
use tkmcollector.Outcome.{Outcome, ok, bind}
use tkmcollector.Number.{ℤ, minus_one, stol, stoi, stoul, to_int32}
use tkmcollector.Messages.{no_session, no_device, DeviceData, SessionData}
use tkmcollector.Sqlite.{Row}

-- Queries without a result.
abbrev pub no_rows : List Row → Outcome (Unit {0})
no_rows rows = ok tt

-- The id is read, and may throw; no code uses it.
set_device_column : DeviceData → String → String → Outcome DeviceData
set_device_column d column value =
    if str_eq column "Id"
    then bind (stol value) (λ _. ok d)
    else if str_eq column "Hash"
    then ok (record d { hash = value })
    else if str_eq column "Name"
    then ok (record d { name = value })
    else if str_eq column "Address"
    then ok (record d { address = value })
    else if str_eq column "Port"
    then bind (stoi value) (λ p. ok (record d { port = p }))
    else ok d

device_row : DeviceData → Row → Outcome DeviceData
device_row d [] = ok d
device_row d ((column, value) ∷ r) = bind (set_device_column d column value) (λ d'. device_row d' r)

set_session_column : SessionData → String → String → Outcome SessionData
set_session_column s column value =
    if str_eq column "Id"
    then bind (stol value) (λ _. ok s)
    else if str_eq column "Hash"
    then ok (record s { hash = value })
    else if str_eq column "Name"
    then ok (record s { name = value })
    else if str_eq column "StartTimestamp"
    then bind (stoul value) (λ n. ok (record s { started = n }))
    else if str_eq column "EndTimestamp"
    then bind (stoul value) (λ n. ok (record s { ended = n }))
    else ok s

session_row : SessionData → Row → Outcome SessionData
session_row s [] = ok s
session_row s ((column, value) ∷ r) =
    bind (set_session_column s column value) (λ s'. session_row s' r)

-- LoadDevices and GetDevices
unfoldable pub device_rows : List Row → Outcome (List DeviceData)
unfolding set_device_column device_row
device_rows [] = ok []
device_rows (r ∷ rs) =
    bind (device_row no_device r) (λ d. bind (device_rows rs) (λ ds. ok (d ∷ ds)))

-- CleanSessions and GetSessions
unfoldable pub session_rows : List Row → Outcome (List SessionData)
unfolding set_session_column session_row
session_rows [] = ok []
session_rows (r ∷ rs) =
    bind (session_row no_session r) (λ s. bind (session_rows rs) (λ ss. ok (s ∷ ss)))

id_column : ℤ → Row → Outcome ℤ
id_column id [] = ok id
id_column id ((column, value) ∷ r) =
    if str_eq column "Id" then bind (stol value) (λ n. id_column (to_int32 n) r) else id_column id r

id_rows : ℤ → List Row → Outcome ℤ
id_rows id [] = ok id
id_rows id (r ∷ rs) = bind (id_column id r) (λ id'. id_rows id' rs)

-- HasDevice and HasSession: the last id, or -1.
unfoldable pub found_id : List Row → Outcome ℤ
unfolding id_column id_rows
found_id = id_rows minus_one

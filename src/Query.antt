-- ===== src/Query.antt =====
-- source/Query.cpp: the texts of the queries on devices and sessions.
pub mod Columns
pub mod Schema
pub mod Tables
pub mod Insert
pub mod Inserts
pub mod AddData
pub mod Statement
use tkmcollector.Prelude.{ℕ, String, ◌<>◌}
use Schema.{Backend}

-- The operator that compares a text column.
abbrev pub comparison : Backend → String
comparison Backend.sqlite3 = " IS "
comparison Backend.postgresql = " LIKE "

abbrev pub quoted : String → String
quoted s = "'" <> s <> "'"

-- `WHERE Hash IS '...'`
abbrev pub where_hash : Backend → String → String
where_hash b hash = " WHERE Hash" <> comparison b <> quoted hash

abbrev pub device_id : Backend → String → String
device_id b hash = "(SELECT Id FROM tkmDevices" <> where_hash b hash <> ")"

unfoldable pub get_devices : Backend → String
get_devices b = "SELECT *  FROM tkmDevices;"

-- `port` is the decimal text of the port.
unfoldable pub add_device : Backend → String → String → String → String → String
add_device b hash name address port =
    "INSERT INTO tkmDevices (Hash,Name,Address,Port) VALUES ("
    <> quoted hash
    <> ", "
    <> quoted name
    <> ", "
    <> quoted address
    <> ", "
    <> quoted port
    <> ");"

unfoldable pub rem_device : Backend → String → String
rem_device b hash = "DELETE FROM tkmDevices" <> where_hash b hash <> ";"

unfoldable pub get_device : Backend → String → String
get_device b hash = "SELECT * FROM tkmDevices" <> where_hash b hash <> " LIMIT 1;"

unfoldable pub has_device : Backend → String → String
has_device b hash = "SELECT Id FROM tkmDevices" <> where_hash b hash <> " LIMIT 1;"

unfoldable pub get_sessions : Backend → String
get_sessions b = "SELECT *  FROM tkmSessions;"

unfoldable pub get_sessions_of : Backend → String → String
get_sessions_of b hash =
    "SELECT * FROM tkmSessions WHERE Device" <> comparison b <> device_id b hash <> ";"

-- The numbers are decimal texts.
unfoldable pub add_session : Backend → String → String → String → String → String → String
add_session b hash name core_count device_hash started =
    "INSERT INTO tkmSessions (Hash,Name,CoreCount,StartTimestamp,EndTimestamp,Device) VALUES ("
    <> quoted hash
    <> ", "
    <> quoted name
    <> ", "
    <> quoted core_count
    <> ", "
    <> quoted started
    <> ", '0', "
    <> device_id b device_hash
    <> ");"

unfoldable pub end_session : Backend → String → String → String
end_session b hash ended =
    "UPDATE tkmSessions SET EndTimestamp = " <> quoted ended <> where_hash b hash <> ";"

unfoldable pub rem_session : Backend → String → String
rem_session b hash = "DELETE FROM tkmSessions" <> where_hash b hash <> ";"

unfoldable pub get_session : Backend → String → String
get_session b hash = "SELECT * FROM tkmSessions" <> where_hash b hash <> " LIMIT 1;"

unfoldable pub has_session : Backend → String → String
has_session b hash = "SELECT Id FROM tkmSessions" <> where_hash b hash <> " LIMIT 1;"

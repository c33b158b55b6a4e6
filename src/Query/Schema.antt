-- ===== src/Query/Schema.antt =====
-- The tables of `createTables` (source/Query.cpp): a column has one name and, for each kind of
-- database, a type.
use tkmcollector.Prelude.{String, Option, none, some, List, [], ◌∷◌, ◌<>◌}

-- Query::Type
pub data Backend : Type 0 where
  sqlite3 postgresql : Backend

pub data ColumnType : Type 0 where
  key text int wide real : ColumnType

abbrev pub column_type : Backend → ColumnType → String
column_type Backend.sqlite3 key = "INTEGER PRIMARY KEY"
column_type Backend.postgresql key = "SERIAL PRIMARY KEY"
column_type b text = "TEXT NOT NULL"
column_type b int = "INTEGER NOT NULL"
column_type Backend.sqlite3 wide = "INTEGER NOT NULL"
column_type Backend.postgresql wide = "BIGINT NOT NULL"
column_type b real = "REAL NOT NULL"

-- A foreign key on another table's Id.
pub record Reference : Type 0 where
  pub constraint : String
  pub column : String
  pub table : String

pub record Table : Type 0 where
  pub name : String
  pub columns : List (String × ColumnType)
  pub reference : Option Reference

abbrev pub session_key : String → Option Reference
session_key name = some (record { constraint = "KFSession"; column = name; table = "tkmSessions" })

abbrev reference_text : Option Reference → String
reference_text none = ");"
reference_text (some r) =
    ", CONSTRAINT " <> r.constraint <> " FOREIGN KEY(" <> r.column <> ") REFERENCES " <> r.table
    <> "(Id) ON DELETE CASCADE);"

columns_text : Backend → List (String × ColumnType) → String
columns_text b [] = ""
columns_text b ((name, type) ∷ []) = name <> " " <> column_type b type
columns_text b ((name, type) ∷ c ∷ cs) =
    name <> " " <> column_type b type <> ", " <> columns_text b (c ∷ cs)

unfoldable pub create_table : Backend → Table → String
unfolding columns_text
create_table b t =
    "CREATE TABLE IF NOT EXISTS "
    <> t.name
    <> " ("
    <> columns_text b t.columns
    <> reference_text t.reference

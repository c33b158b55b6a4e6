-- ===== src/Query/Insert.antt =====
-- The frame of every `addData` of source/Query.cpp: an INSERT for a row of data, and its text.
use tkmcollector.Prelude.{ℕ, String, List, [], ◌∷◌, ◌<>◌}
use tkmcollector.Number.{to_string}
use tkmcollector.Query.{comparison, quoted}
use tkmcollector.Query.Schema.{Backend}

-- The three times that every row has.
pub record Times : Type 0 where
  pub system_time : ℕ
  pub monotonic_time : ℕ
  pub receive_time : ℕ

-- The columns and the values that are listed; the value of the last column is the session's id, which
-- the text selects.
pub record Insert : Type 0 where
  pub table : String
  pub columns : List String
  pub values : List String

-- The names of columns.
abbrev pub names : {C : Type 0} → (C → String) → List C → List String
names name [] = []
names name (c ∷ cs) = name c ∷ names name cs

abbrev pub stamps : Times → List String
stamps t = to_string t.system_time ∷ to_string t.monotonic_time ∷ to_string t.receive_time ∷ []

unfoldable pub column_list : List String → String
column_list [] = ""
column_list (c ∷ []) = c
column_list (c ∷ d ∷ cs) = c <> "," <> column_list (d ∷ cs)

-- Each value in quotes and with a comma behind it.
unfoldable pub value_list : List String → String
value_list [] = ""
value_list (v ∷ vs) = quoted v <> ", " <> value_list vs

-- The id of a session that has not ended.
abbrev pub open_session_id : Backend → String → String
open_session_id b hash =
    "(SELECT Id FROM tkmSessions WHERE Hash"
    <> comparison b
    <> quoted hash
    <> " AND EndTimestamp = 0)"

unfoldable pub insert_text : Backend → String → Insert → String
unfolding column_list value_list
insert_text b hash i =
    "INSERT INTO "
    <> i.table
    <> " ("
    <> column_list i.columns
    <> ") VALUES ("
    <> value_list i.values
    <> open_session_id b hash
    <> ");"

unfoldable pub insert_texts : Backend → String → List Insert → String
unfolding insert_text
insert_texts b hash [] = ""
insert_texts b hash (i ∷ is) = insert_text b hash i <> insert_texts b hash is

-- ===== src/Query/Statement.antt =====
-- The statements that the handlers of both databases run, apart from the dialect of their texts.
use tkmcollector.Prelude.{String}
use tkmcollector.Messages.Payload.{Payload}
use tkmcollector.Query
use tkmcollector.Query.Schema.{Backend}
use tkmcollector.Query.Insert.{Times}
use tkmcollector.Query.AddData.{add_data}
use tkmcollector.Query.Tables.{create_tables, drop_tables}

pub data Statement : Type 0 where
  creation removal all_devices all_sessions : Statement
  device_insertion : (hash name address port : String) → Statement
  device_removal device_check : String → Statement
  sessions_of_device : String → Statement
  session_insertion : (hash name core_count device started : String) → Statement
  session_end : (hash ended : String) → Statement
  session_removal session_check : String → Statement
  row_insertion : String → Times → Payload → Statement

abbrev pub text : Backend → Statement → String
text b Statement.creation = create_tables b
text b Statement.removal = drop_tables b
text b Statement.all_devices = Query.get_devices b
text b Statement.all_sessions = Query.get_sessions b
text b (Statement.device_insertion h n a p) = Query.add_device b h n a p
text b (Statement.device_removal h) = Query.rem_device b h
text b (Statement.device_check h) = Query.has_device b h
text b (Statement.sessions_of_device h) = Query.get_sessions_of b h
text b (Statement.session_insertion h n k d t) = Query.add_session b h n k d t
text b (Statement.session_end h t) = Query.end_session b h t
text b (Statement.session_removal h) = Query.rem_session b h
text b (Statement.session_check h) = Query.has_session b h
text b (Statement.row_insertion h t m) = add_data b h t m

-- ===== src/Sqlite/Reading.antt =====
-- The rows that a request has read by `sqlite_callback` (source/SQLiteDatabase.cpp).
use tkmcollector.Prelude.{String, ◌≡◌, arith, if◌then◌else◌, str_eq}
use tkmcollector.Outcome.{Ending, ending, returns}
use tkmcollector.Requests.{BulkData, DatabaseAction}
use tkmcollector.Query
use tkmcollector.Sqlite.{Engine}
use tkmcollector.Sqlite.Rows.{device_rows, found_id, session_rows}
use tkmcollector.Sqlite.Rows.Readable.{
  device_number, id_number, read_rows, session_number, ending-device_rows, ending-found_id,
  ending-session_rows,
}
use tkmcollector.Sqlite.Devices.{sql}

-- The text of GetSessions: an empty hash asks for every session.
abbrev sessions_text : String → String
sessions_text hash =
    if str_eq hash "" then Query.get_sessions sql else Query.get_sessions_of sql hash

-- How the numbers are read in the rows that the engine gives to a request's first query, for the
-- requests that read any. A text there may be no number, as where a hash has changed the query.
abbrev pub reading : (e : Engine) → e.Db → DatabaseAction → BulkData → Ending
reading e db DatabaseAction.load_devices b =
    read_rows device_number (e.exec db (Query.get_devices sql)).rows
reading e db DatabaseAction.get_devices b =
    read_rows device_number (e.exec db (Query.get_devices sql)).rows
reading e db DatabaseAction.clean_sessions b =
    read_rows session_number (e.exec db (Query.get_sessions sql)).rows
reading e db DatabaseAction.add_device (BulkData.device_data d) =
    read_rows id_number (e.exec db (Query.has_device sql d.hash)).rows
reading e db DatabaseAction.remove_device (BulkData.device_data d) =
    read_rows id_number (e.exec db (Query.has_device sql d.hash)).rows
reading e db DatabaseAction.get_sessions (BulkData.device_data d) =
    read_rows session_number (e.exec db (sessions_text d.hash)).rows
reading e db DatabaseAction.rem_session (BulkData.session_data x) =
    read_rows id_number (e.exec db (Query.has_session sql x.hash)).rows
reading e db DatabaseAction.add_session (BulkData.session_info x) =
    read_rows id_number (e.exec db (Query.has_session sql x.hash)).rows
reading e db _ b = returns

-- How the callback ends on the same rows.
abbrev pub callback_ending : (e : Engine) → e.Db → DatabaseAction → BulkData → Ending
callback_ending e db DatabaseAction.load_devices b =
    ending (device_rows (e.exec db (Query.get_devices sql)).rows)
callback_ending e db DatabaseAction.get_devices b =
    ending (device_rows (e.exec db (Query.get_devices sql)).rows)
callback_ending e db DatabaseAction.clean_sessions b =
    ending (session_rows (e.exec db (Query.get_sessions sql)).rows)
callback_ending e db DatabaseAction.add_device (BulkData.device_data d) =
    ending (found_id (e.exec db (Query.has_device sql d.hash)).rows)
callback_ending e db DatabaseAction.remove_device (BulkData.device_data d) =
    ending (found_id (e.exec db (Query.has_device sql d.hash)).rows)
callback_ending e db DatabaseAction.get_sessions (BulkData.device_data d) =
    ending (session_rows (e.exec db (sessions_text d.hash)).rows)
callback_ending e db DatabaseAction.rem_session (BulkData.session_data x) =
    ending (found_id (e.exec db (Query.has_session sql x.hash)).rows)
callback_ending e db DatabaseAction.add_session (BulkData.session_info x) =
    ending (found_id (e.exec db (Query.has_session sql x.hash)).rows)
callback_ending e db _ b = returns

-- The callback ends as the numbers in the rows do.
pub callback_ending-reading :
    (e : Engine) (db : e.Db) (a : DatabaseAction) (b : BulkData)
    → callback_ending e db a b ≡ reading e db a b
callback_ending-reading e db DatabaseAction.load_devices b = ending-device_rows _
callback_ending-reading e db DatabaseAction.get_devices b = ending-device_rows _
callback_ending-reading e db DatabaseAction.clean_sessions b = ending-session_rows _
callback_ending-reading e db DatabaseAction.add_device (BulkData.device_data d) = ending-found_id _
callback_ending-reading e db DatabaseAction.remove_device (BulkData.device_data d) =
    ending-found_id _
callback_ending-reading e db DatabaseAction.get_sessions (BulkData.device_data d) =
    ending-session_rows _
callback_ending-reading e db DatabaseAction.rem_session (BulkData.session_data x) =
    ending-found_id _
callback_ending-reading e db DatabaseAction.add_session (BulkData.session_info x) =
    ending-found_id _
callback_ending-reading e db _ b = ground arith

-- ===== src/Tests/Backends.antt =====
-- The theorems on the request handlers of both databases, and on the rows of data, at concrete inputs.
use tkmcollector.Prelude.{
  ℕ, String, ◌≡◌, refl, true, false, none, some, List, [], ◌∷◌, ◌+◌, if◌then◌else◌, str_eq,
}
use tkmcollector.Outcome.{Exception, Returns, ending, returns, raises, ok, throws}
use tkmcollector.Number.{stol}
use tkmcollector.Messages.Payload.{Payload}
use tkmcollector.Requests.{BulkData, DatabaseAction, Request}
use tkmcollector.Requests.Reply.{AreReply}
use tkmcollector.Exec.Trace.{dispatcher_requests}
use tkmcollector.MonitorDevice.DataSource.{DataSource}
use tkmcollector.Options.{Options}
use tkmcollector.DeviceManager.{Manager}
use tkmcollector.Query.Insert.{Times}
use tkmcollector.Query.AddData.{inserts}
use tkmcollector.Query.AddData.Columns.{AllFit, inserts-AllFit, table_of}
use tkmcollector.Database.{State}
use tkmcollector.Sqlite.{Engine}
use tkmcollector.Sqlite.Rows.{found_id}
use tkmcollector.Sqlite.Devices.{do_add_device, sql}
use tkmcollector.Query
use tkmcollector.Sqlite.Handler.{request_handler}
use tkmcollector.Sqlite.Handler.Replies.{sqlite_handler-Replied}
use tkmcollector.Sqlite.Handler.Endings.{ending-sqlite_handler}
use tkmcollector.Postgres.{Pqxx}
use tkmcollector.Query.Columns.{DeviceColumn, SessionColumn}
use tkmcollector.Postgres.Rows.Columns.{device_position-session_position, name_at}
use tkmcollector.Postgres.Handler as Postgres
use tkmcollector.Postgres.Handler.Replies.{postgres_handler-Replied}
use tkmcollector.Postgres.Handler.Endings.{ending-postgres_handler}
use tkmcollector.Query.Tables.{devices, sessions}
use tkmcollector.Tests.Fixtures.{board, database_request, device_list, linked, source_list, willing}
use tkmcollector.Tests.Payloads.{unpack_zeros, zero_proc_event}

-- A database that counts its queries. It has one device, whose id is this text.
abbrev holding : String → Engine
holding id = record {
  Db = ℕ;
  exec = λ n text. record {
    okay = true;
    rows =
        if str_eq text (Query.get_devices sql)
        then (("Id", id) ∷ ("Hash", "d1") ∷ ("Name", "board") ∷ ("Port", "5000") ∷ []) ∷ []
        else if str_eq text (Query.has_device sql board.hash)
        then (("Id", id) ∷ []) ∷ []
        else [];
    db = n + 1;
  };
}

abbrev pub peopled : Engine
peopled = holding "3"

-- The same with an id that is no number.
abbrev spoiled : Engine
spoiled = holding "x"

-- A connection without rows, which counts its transactions.
abbrev pub blank_pqxx : Pqxx
blank_pqxx = record {
  Connection = ℕ;
  Row = Unit {0};
  connect = λ _. ok 0;
  is_open = λ _. true;
  transact = λ n _. record { rows = some []; connection = n + 1 };
  as_long = λ _ _. none;
  as_int = λ _ _. none;
  as_string = λ _ _. none;
}

abbrev unconfigured : Options
unconfigured = record { build = record { version = "1.0"; conf_path = "" }; config_file = none }

abbrev pub manager : Manager (List DataSource) (List ℕ)
manager = record { device = λ _. linked; devices = [] }

abbrev at_start : State ℕ (List DataSource) (List ℕ)
at_start = record { db = 0; manager = manager; fresh = 0 }

abbrev of_board : Request DatabaseAction
of_board = database_request DatabaseAction.add_device (BulkData.device_data board)

-- A closed connection that refuses to be opened.
abbrev refused_pqxx : Pqxx
refused_pqxx = record blank_pqxx {
  connect = λ _. throws (Exception.runtime_error "could not connect");
  is_open = λ _. false;
}

abbrev of_database : Request DatabaseAction
of_database = record (database_request DatabaseAction.init_database (BulkData.int 0)) {
  client = some 7;
}

sqlite_handler-Replied_example :
    Returns
      (λ (_, _, es). AreReply of_board (dispatcher_requests es))
      (request_handler peopled source_list device_list unpack_zeros willing 20 of_board at_start)
unfolding found_id Query.has_device Query.get_devices stol request_handler do_add_device
sqlite_handler-Replied_example =
    sqlite_handler-Replied peopled source_list device_list unpack_zeros willing 20 of_board at_start
      7 refl tt

ending-sqlite_handler_example :
    ending
      (request_handler spoiled source_list device_list unpack_zeros willing 20 of_board at_start)
    ≡ raises
unfolding found_id Query.has_device Query.get_devices stol
ending-sqlite_handler_example =
    ending-sqlite_handler spoiled source_list device_list unpack_zeros willing 20 of_board at_start

postgres_handler-Replied_example :
    ending (
      Postgres.request_handler refused_pqxx unconfigured source_list device_list unpack_zeros
        willing 20 of_database at_start)
    ≡ raises
postgres_handler-Replied_example =
    postgres_handler-Replied refused_pqxx unconfigured source_list device_list unpack_zeros willing
      20 of_database at_start 7 refl tt

ending-postgres_handler_example :
    ending (
      Postgres.request_handler blank_pqxx unconfigured source_list device_list unpack_zeros willing
        20 of_board at_start)
    ≡ returns
ending-postgres_handler_example =
    ending-postgres_handler blank_pqxx unconfigured source_list device_list unpack_zeros willing 20
      of_board at_start

device_position-session_position_example :
    (name_at 1 devices.columns ≡ some "Hash") × (name_at 2 sessions.columns ≡ some "Hash")
device_position-session_position_example =
    device_position-session_position DeviceColumn.hash SessionColumn.hash

abbrev noon : Times
noon = record { system_time = 12; monotonic_time = 3; receive_time = 13 }

inserts-AllFit_example :
    AllFit
      (table_of (Payload.proc_event zero_proc_event))
      (inserts noon (Payload.proc_event zero_proc_event))
inserts-AllFit_example = inserts-AllFit noon (Payload.proc_event zero_proc_event)

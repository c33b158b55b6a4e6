-- ===== src/Sqlite/Data.antt =====
-- `doAddData` of source/SQLiteDatabase.cpp.
use tkmcollector.Prelude.{String, Bool, true, none, some, not, if◌then◌else◌}
use tkmcollector.Outcome.{runtime_error}
use tkmcollector.Defaults.{Arg}
use tkmcollector.Defaults.Args.{at, count}
use tkmcollector.Messages.{Data}
use tkmcollector.Messages.Payload.{Payload, UnpackData, payload_of}
use tkmcollector.Requests.{Request, DatabaseAction, as_monitor_data}
use tkmcollector.Exec.{Exec, ◌>>=◌, ◌>>◌, pure, lift, throw}
use tkmcollector.Query.AddData.{add_data}
use tkmcollector.Database.{State, times_of}
use tkmcollector.Sqlite.{Engine, run_query}
use tkmcollector.Sqlite.Rows.{no_rows}
use tkmcollector.Sqlite.Devices.{sql}

module _ (e : Engine) {L C : Type 0} where
  -- The eleven `write` callbacks; the query's result is not read.
  abbrev write : String → Data → Payload → Exec (State e.Db L C) (Unit {0})
  write hash d m = do run_query e (add_data sql hash (times_of d) m) no_rows; pure tt

  -- The switch over the kinds of data.
  abbrev write_what : UnpackData → Request DatabaseAction → Data → Exec (State e.Db L C) (Unit {0})
  write_what unpack rq d = elim (payload_of unpack d.what d.payload) [
    | none ↦ pure tt
    | some m ↦ (do hash ← lift (at Arg.session_hash rq.args); write hash d m)
  ]

  unfoldable pub do_add_data : UnpackData → Request DatabaseAction → Exec (State e.Db L C) Bool
  do_add_data unpack rq = do
    d ← lift (as_monitor_data rq.bulk_data)
    if not (count Arg.session_hash rq.args)
        then throw (runtime_error "Invalid arguments")
        else do write_what unpack rq d; pure true

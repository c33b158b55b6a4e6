-- ===== src/Tests/Database.antt =====
-- The theorems on the database's handlers at concrete inputs.
use tkmcollector.Prelude.{ℕ, refl, true, List, [], ◌∷◌, ◌+◌}
use tkmcollector.Outcome.{Returns}
use tkmcollector.Number.{stol, stoi}
use tkmcollector.Defaults.{Arg}
use tkmcollector.Defaults.Args.{emplace}
use tkmcollector.Messages.{no_device}
use tkmcollector.Requests.{BulkData, DatabaseAction, Request}
use tkmcollector.MonitorDevice.DataSource.{DataSource}
use tkmcollector.Query
use tkmcollector.Database.{State}
use tkmcollector.Sqlite.{Engine}
use tkmcollector.Sqlite.Rows.{device_rows}
use tkmcollector.Sqlite.Devices.{do_load_devices}
use tkmcollector.Database.Loading.{IsLoaded}
use tkmcollector.Sqlite.Devices.Loading.{do_load_devices-IsLoaded}
use tkmcollector.Tests.Fixtures.{
  board, database_request, device_list, device_list-IsLawful, linked, session, source_list,
}

-- A database that counts its queries, and answers each with one row.
abbrev counting : Engine
counting = record {
  Db = ℕ;
  exec = λ n _. record {
    okay = true;
    rows =
        (("Id", "3") ∷ ("Hash", "s0") ∷ ("StartTimestamp", "10") ∷ ("EndTimestamp", "0") ∷ []) ∷ [];
    db = n + 1;
  };
}

abbrev started : State ℕ (List DataSource) (List ℕ)
started = record { db = 0; manager = record { device = λ _. linked; devices = [] }; fresh = 0 }

abbrev of_board : Request DatabaseAction
of_board = database_request DatabaseAction.add_device (BulkData.device_data board)

do_load_devices-IsLoaded_example :
    Returns
      (λ (_, s', _).
        IsLoaded source_list device_list device_list-IsLawful
          (record no_device { hash = "s0" } ∷ [])
          started
          s')
      (do_load_devices counting source_list device_list started)
unfolding device_rows stol stoi
do_load_devices-IsLoaded_example =
    do_load_devices-IsLoaded counting source_list device_list device_list-IsLawful started
      (record no_device { hash = "s0" } ∷ []) refl refl (record { settled = tt; older = tt })

abbrev of_info : Request DatabaseAction
of_info = record (database_request DatabaseAction.add_session (BulkData.session_info session)) {
  args = emplace Arg.device_hash "d1" [];
}

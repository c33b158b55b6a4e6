-- ===== src/Tests/Whole.antt =====
-- The theorems on the whole collector at a short run.
use mathlib.Core.WellFounded.{Acc}
use tkmcollector.Prelude.{ℕ, String, ◌+◌, ◌≤◌, ◌≡◌, refl, Bool, some, List}
use tkmcollector.Outcome.{returns}
use tkmcollector.ControlClient.{ControlRequest, RequestType, handle_type}
use tkmcollector.MonitorDevice.DataSource.{DataSource}
use tkmcollector.Options.{Options, KeyFile}
use tkmcollector.Query
use tkmcollector.Query.Schema.{Backend}
use tkmcollector.Database.{State}
use tkmcollector.Application.{start as set_up, erase_database}
use tkmcollector.Dispatcher
use tkmcollector.Dispatcher.{do_send_status}
use tkmcollector.Database.{load_device, load_each, end_each}
use tkmcollector.DeviceManager.{add_device, found_hash, get_device, has_device, last_with}
use tkmcollector.Number.{stoi, stol}
use tkmcollector.Sqlite.{run_query}
use tkmcollector.Sqlite.Rows.{device_rows, session_rows}
use tkmcollector.Sqlite.Devices.{do_load_devices, do_get_devices}
use tkmcollector.Sqlite.Sessions.{do_clean_sessions}
use tkmcollector.Sqlite.Handler.{request_handler}
use tkmcollector.System.{
  System, DatabaseHandler, Work, Works, busy, still, IsLaunched, launched, IsTaking, Reach, start,
  stores, dispatches, asks_for, works, hears,
}
use tkmcollector.System.Store.{Store, handler}
use tkmcollector.System.Measure.{pending, sum}
use tkmcollector.System.Answers.{answered, asked, owed, owes}
use tkmcollector.System.Answers.Backends.{Reach-answered}
use tkmcollector.System.Drain.{effort}
use tkmcollector.System.Drain.Ends.{Work-Acc, Works-bounded}
use tkmcollector.System.Sound.Progress.{AllEnd, Drained, Reach-AllEnd, Reach-Drained, obstacle}
use tkmcollector.Tests.Backends.{peopled, manager}
use tkmcollector.Tests.Collector.{control_unpack, monitor_unpack}
use tkmcollector.Tests.Fixtures.{device_list, source_list, willing}
use tkmcollector.Tests.Payloads.{unpack_zeros}
use tkmcollector.Tests.Tool.{build, both}

willing-IsTaking : IsTaking willing
willing-IsTaking = record {
  takes_dispatcher = λ _. refl;
  takes_database = λ _. refl;
  takes_device = λ _ _. refl;
}

abbrev sqlite_file : KeyFile
sqlite_file s p = some "sqlite3"

abbrev options : Options
options = record { build = build; config_file = some sqlite_file }

abbrev at_start : State ℕ (List DataSource) (List ℕ)
at_start = record { db = 0; manager = manager; fresh = 5 }

abbrev Collector : Type 0
Collector = System ℕ (List DataSource) (List ℕ)

abbrev first : (s : Collector) × IsLaunched Backend.sqlite3 s
unfolding set_up erase_database
first = (_, launched willing both options Bool.false tt _ at_start refl refl)

abbrev listing : ControlRequest String
listing = record { id = "r1"; type = RequestType.get_devices; forced = Bool.false; payload = "" }

abbrev store : Store
store = Store.sqlite peopled

abbrev database : DatabaseHandler ℕ (List DataSource) (List ℕ)
database = handler source_list device_list unpack_zeros store

abbrev From : Collector → Collector → Type 0
From = Reach source_list device_list database control_unpack monitor_unpack 42

-- The client's command, and the three requests of the set-up.
abbrev asked_state : (t : Collector) × From first.0 t
unfolding first handle_type request_handler do_load_devices do_clean_sessions run_query device_rows
    session_rows load_each end_each Query.get_devices stol stoi load_device get_device last_with
    add_device has_device found_hash Query.get_sessions Query.has_device
asked_state = (
  _,
  works
      (works
        (works (hears start (asks_for willing 7 listing _ _ willing-IsTaking refl refl))
          (stores willing 20 _ _ _ _ _ willing-IsTaking refl refl refl))
        (stores willing 20 _ _ _ _ _ willing-IsTaking refl refl refl))
      (stores willing 20 _ _ _ _ _ willing-IsTaking refl refl refl),
)

-- The way of the command through the dispatcher, the database and the dispatcher again.
abbrev answer : (t : Collector) × Works source_list device_list database asked_state.0 3 t
unfolding asked_state request_handler Dispatcher.request_handler Dispatcher.do_get_devices
    do_get_devices do_send_status run_query device_rows Query.get_devices
answer = (
  _,
  busy
      (busy (busy still (dispatches willing _ _ _ _ _ willing-IsTaking refl refl refl))
        (stores willing 20 _ _ _ _ _ willing-IsTaking refl refl refl))
      (dispatches willing _ _ _ _ _ willing-IsTaking refl refl refl),
)

answer_sent : sum (answered 7) answer.0.history ≡ 1
unfolding answer owed
answer_sent = refl

Reach-answered_example :
    asked 7 asked_state.0 ≡ pending (owes 7) asked_state.0 + sum (answered 7) asked_state.0.history
Reach-answered_example =
    Reach-answered source_list device_list unpack_zeros store control_unpack monitor_unpack 42 7
      first.1 asked_state.1

Work-Acc_example : Acc (λ t u. Work source_list device_list database u t) asked_state.0
Work-Acc_example = Work-Acc source_list device_list unpack_zeros store asked_state.0

Works-bounded_example : 3 + pending effort answer.0 ≤ pending effort asked_state.0
unfolding asked_state
Works-bounded_example = Works-bounded source_list device_list unpack_zeros store answer.1 refl

Reach-AllEnd_example :
    AllEnd
      (λ rq. Dispatcher.request_handler device_list willing rq asked_state.0.state.manager)
      (λ _. returns)
      asked_state.0.dispatcher
    × AllEnd
        (λ rq. database willing 20 rq asked_state.0.state)
        (obstacle store asked_state.0.state.db)
        asked_state.0.database
Reach-AllEnd_example =
    Reach-AllEnd source_list device_list unpack_zeros store control_unpack monitor_unpack 42 willing
      20 first.1 asked_state.1

Reach-Drained_example : Drained source_list device_list unpack_zeros store asked_state.0
Reach-Drained_example =
    Reach-Drained source_list device_list unpack_zeros store willing willing-IsTaking 20
      control_unpack monitor_unpack 42 first.1 asked_state.1

-- ===== src/Database.antt =====
-- What the two databases (source/SQLiteDatabase.cpp, source/PQDatabase.cpp) share: the state that their
-- handlers see, and the loops that both have in the same words.
pub mod Loading
pub mod Loops
pub mod Requests
pub mod Answers
use tkmcollector.Prelude.{
  ℕ, suc, String, Bool, Option, none, some, List, [], ◌∷◌, if◌then◌else◌, str_eq, nat_eq, false,
}
use tkmcollector.Outcome.{Outcome}
use tkmcollector.SafeList.{SafeList}
use tkmcollector.Number.{pos}
use tkmcollector.Defaults.{Arg, Val, val_for}
use tkmcollector.Defaults.Args.{Args, find}
use tkmcollector.Query.Insert.{Times}
use tkmcollector.Messages.{Data, DeviceData, DeviceState, SessionData, SessionState}
use tkmcollector.Requests.{Client, Request}
use tkmcollector.Exec.{
  Env, Exec, Effect, EventSource, ◌>>=◌, ◌>>◌, pure, gets, modify, perform, fault,
}
use tkmcollector.MonitorDevice.{Device, new_device, set_state, end_session_request}
use tkmcollector.MonitorDevice.DataSource.{DataSource}
use tkmcollector.DeviceManager
use tkmcollector.DeviceManager.{Manager, store, on_device}

-- The database, the device manager, and the address of the next device that is made.
pub record State (Db L C : Type 0) : Type 0 where
  pub db : Db
  pub manager : Manager L C
  pub fresh : ℕ

abbrev pub times_of : Data → Times
times_of d = record {
  system_time = d.system_time_sec;
  monotonic_time = d.monotonic_time_sec;
  receive_time = d.receive_time_sec;
}

-- `rq.client->getName()`
abbrev pub require_client : {S A : Type 0} → Request A → Exec S Client
require_client rq s = elim rq.client [ none ↦ fault s | some c ↦ pure c s ]

abbrev pub on_manager : {Db L C A : Type 0} → Exec (Manager L C) A → Exec (State Db L C) A
on_manager m s = elim (m s.manager) [
  | Outcome.ok (a, x, es) ↦ Outcome.ok (a, record s { manager = x }, es)
  | Outcome.throws x ↦ Outcome.throws x
  | Outcome.null_pointer ↦ Outcome.null_pointer
]

abbrev pub outcome : Bool → Val
outcome okay = if okay then Val.status_okay else Val.status_error

-- A session without an end is in progress.
abbrev pub with_session_state : SessionData → SessionData
with_session_state s = record s {
  state = if nat_eq s.ended 0 then SessionState.progress else SessionState.complete;
}

abbrev pub with_session_states : List SessionData → List SessionData
with_session_states [] = []
with_session_states (s ∷ ss) = with_session_state s ∷ with_session_states ss

module _ {Db L C : Type 0} where
  -- The loop of doCleanSessions.
  unfoldable pub end_each : Env → List SessionData → Exec (State Db L C) (Unit {0})
  end_each env [] = pure tt
  end_each env (s ∷ ss) = do
    if nat_eq s.ended 0
        then perform (Effect.push_database (end_session_request s.hash))
        else pure tt
    end_each env ss

module _ {Db : Type 0} (D : SafeList DataSource) (S : SafeList ℕ) where
  -- The body of doLoadDevices' loop.
  unfoldable pub load_device : DeviceData → Exec (State Db D.Carrier S.Carrier) (Unit {0})
  load_device d = do
    found ← gets (λ s. DeviceManager.get_device S d.hash s.manager)
    elim found [
      | some a ↦ pure tt
      | none ↦ (do
        a ← gets (λ s. s.fresh)
        modify (λ s. record s {
          manager = record s.manager { device = store s.manager.device a (new_device D.empty d) };
          fresh = suc a;
        })
        on_manager (DeviceManager.add_device S a)
        on_manager (on_device a (modify (set_state DeviceState.loaded)))
        perform (Effect.add_event_source (EventSource.device_queue d.hash)))
    ]

  unfoldable pub load_each : List DeviceData → Exec (State Db D.Carrier S.Carrier) (Unit {0})
  load_each [] = pure tt
  load_each (d ∷ ds) = do load_device d; load_each ds

module _ {L : Type 0} (S : SafeList ℕ) where
  -- A device of the manager shows its state.
  abbrev pub with_device_state : Manager L S.Carrier → DeviceData → DeviceData
  with_device_state m d = elim (DeviceManager.get_device S d.hash m) [
    | none ↦ d
    | some a ↦ record d { state = (m.device a).device_data.state }
  ]

  abbrev pub with_device_states : Manager L S.Carrier → List DeviceData → List DeviceData
  with_device_states m [] = []
  with_device_states m (d ∷ ds) = with_device_state m d ∷ with_device_states m ds

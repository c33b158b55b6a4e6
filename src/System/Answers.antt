-- ===== src/System/Answers.antt =====
-- Which requests owe their client an answer, and what answers it: the SendStatus of
-- source/Dispatcher.cpp.
pub mod Balance
pub mod Backends
pub mod Outside
pub mod Dispatcher
pub mod Device
pub mod Sqlite
pub mod Postgres
use tkmcollector.Prelude.{
  ℕ, String, Bool, true, false, arith, ◌+◌, ◌≡◌, refl, Option, none, some, List, if◌then◌else◌,
  nat_eq,
}
use tkmcollector.Outcome.{Outcome, Ensures}
use tkmcollector.Messages.{Mesg}
use tkmcollector.Requests.{Client, DatabaseAction, DeviceAction, DispatcherAction, Request}
use tkmcollector.Exec.{Effect, Peer}
use tkmcollector.MonitorDevice.{end_session_request}
use tkmcollector.System.Loops.{IsBlind}
use tkmcollector.System.Measure.{Measure, Costs, pending, pushed, sum}
use tkmcollector.System.{System}

-- Whether `c` is the client: 1 or 0.
unfoldable pub owed : Client → Option Client → ℕ
owed c none = 0
owed c (some d) = if nat_eq c d then 1 else 0

pub owed-none : (c : Client) → owed c none ≡ 0
unfolding owed
owed-none c = refl

-- The actions of each queue that end in a status for the request's client.
abbrev pub dispatcher_owes : Client → DispatcherAction → Option Client → ℕ
dispatcher_owes c DispatcherAction.quit_collector o = 0
dispatcher_owes c DispatcherAction.quit o = 0
dispatcher_owes c _ o = owed c o

abbrev pub database_owes : Client → DatabaseAction → Option Client → ℕ
database_owes c DatabaseAction.init_database o = owed c o
database_owes c DatabaseAction.get_devices o = owed c o
database_owes c DatabaseAction.add_device o = owed c o
database_owes c DatabaseAction.remove_device o = owed c o
database_owes c DatabaseAction.get_sessions o = owed c o
database_owes c DatabaseAction.rem_session o = owed c o
database_owes c _ o = 0

abbrev pub device_owes : Client → DeviceAction → Option Client → ℕ
device_owes c DeviceAction.connect o = owed c o
device_owes c DeviceAction.disconnect o = owed c o
device_owes c DeviceAction.send_descriptor o = owed c o
device_owes c DeviceAction.start_collecting o = owed c o
device_owes c DeviceAction.stop_collecting o = owed c o
device_owes c _ o = 0

-- The answers that a client is owed.
abbrev pub owes : Client → Measure
owes c = record {
  dispatcher = λ rq. dispatcher_owes c rq.action rq.client;
  database = λ rq. database_owes c rq.action rq.client;
  device = λ rq. device_owes c rq.action rq.client;
}

abbrev is_status : Mesg → Bool
is_status (Mesg.control_status s) = true
is_status _ = false

-- The statuses that are sent to a client.
abbrev pub answered : Client → Effect → ℕ
answered c (Effect.send (Peer.control d) e) = if is_status e.mesg then owed c (some d) else 0
answered c _ = 0

-- What an effect passes on or settles of the answers for a client.
abbrev pub settled : Client → Effect → ℕ
settled c e = pushed (owes c) e + answered c e

-- The answers for a client that wait in the queues or were sent.
abbrev pub accounted : {Db L C : Type 0} → Client → System Db L C → ℕ
accounted c s = pending (owes c) s + sum (answered c) s.history

-- The answers that a client's commands asked for.
abbrev pub asked : {Db L C : Type 0} → Client → System Db L C → ℕ
asked c s = sum (λ d. owed c (some d)) s.commands

-- A run that returns has passed on or sent as many answers for `c` as `n`.
abbrev pub Settles : {A S : Type 0} → Client → ℕ → Outcome (A × S × List Effect) → Type 0
Settles c = Costs (settled c)

pub settled-IsBlind : (c : Client) → IsBlind (settled c)
settled-IsBlind c = record { no_query = λ sql. omega arith; no_source = λ x. omega arith }

pub settled_end :
    (c : Client) (hash : String) → settled c (Effect.push_database (end_session_request hash)) ≡ 0
settled_end c hash = omega arith

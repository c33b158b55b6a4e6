-- ===== src/System.antt =====
-- The collector as a whole: the queues of the dispatcher (source/Dispatcher.cpp), of the database and
-- of the devices (source/MonitorDevice.cpp), whose handlers the event loop runs one at a time, in any
-- order of the queues, and what comes from outside: clients (source/ControlClient.cpp), monitors
-- (source/Connection.cpp), timers and lost connections.
pub mod Store
pub mod Measure
pub mod Loops
pub mod Answers
pub mod Drain
pub mod Sound
use tkmcollector.Prelude.{
  ℕ, suc, String, Bool, true, false, ◌≡◌, ◌≢◌, Option, none, some, List, [], ◌∷◌, ◌++◌,
}
use tkmcollector.Outcome.{Outcome, ok}
use tkmcollector.SafeList.{SafeList}
use tkmcollector.Requests.{Client, DatabaseAction, DeviceAction, DispatcherAction, Request}
use tkmcollector.Exec.{Effect, Env, Exec, UpdateLane, ◌>>◌}
use tkmcollector.Exec.Trace.{database_requests, dispatcher_requests}
use tkmcollector.Application
use tkmcollector.Application.{Support, erase_database}
use tkmcollector.Options.{Options}
use tkmcollector.Query.Schema.{Backend}
use tkmcollector.ControlClient
use tkmcollector.ControlClient.{ControlRequest, RequestType}
use tkmcollector.Database.{State}
use tkmcollector.DeviceManager.{Manager, get_device, store}
use tkmcollector.Dispatcher
use tkmcollector.MonitorConnection
use tkmcollector.MonitorDevice.{Device, connection_removed}
use tkmcollector.MonitorDevice.Collect
use tkmcollector.MonitorDevice.DataSource.{DataSource}
use tkmcollector.MonitorDevice.Lanes.{update_lane}

-- What waits in the queues, in their order; for the devices with the hash of the device, in the order
-- of the pushes to all of them. `history` is what was done since the start, and `commands` names the
-- client of each command that asks for an answer, as often as it gave one.
pub record System (Db L C : Type 0) : Type 0 where
  pub dispatcher : List (Request DispatcherAction)
  pub database : List (Request DatabaseAction)
  pub devices : List (String × Request DeviceAction)
  pub state : State Db L C
  pub history : List Effect
  pub commands : List Client

abbrev pub addressed : List Effect → List (String × Request DeviceAction)
addressed [] = []
addressed (Effect.push_device hash rq ∷ es) = (hash, rq) ∷ addressed es
addressed (e ∷ es) = addressed es

module _ {Db L C : Type 0} where
  -- The queues take what was pushed.
  abbrev pub absorb : List Effect → State Db L C → System Db L C → System Db L C
  absorb es st s = record {
    dispatcher = s.dispatcher ++ dispatcher_requests es;
    database = s.database ++ database_requests es;
    devices = s.devices ++ addressed es;
    state = st;
    history = s.history ++ es;
    commands = s.commands;
  }

  abbrev pub set_device : ℕ → Device L → State Db L C → State Db L C
  set_device a d st = record st {
    manager = record st.manager { device = store st.manager.device a d };
  }

  abbrev pub idle : State Db L C → System Db L C
  idle st = record {
    dispatcher = [];
    database = [];
    devices = [];
    state = st;
    history = [];
    commands = [];
  }

  -- The collector after its set-up with a database, before the first event.
  pub data IsLaunched (b : Backend) (s : System Db L C) : Type 0 where
    launched :
        (env : Env) (w : Support) (o : Options) (erase : Bool) (u : Unit {0}) (es : List Effect)
        (st : State Db L C)
        → (Application.start env w o >> erase_database erase) none ≡ ok (u, some b, es)
        → s ≡ absorb es st (idle st)
        → IsLaunched b s

-- The pushes succeed.
pub record IsTaking (env : Env) : Type 0 where
  pub takes_dispatcher : (rq : Request DispatcherAction) → env (Effect.push_dispatcher rq) ≡ true
  pub takes_database : (rq : Request DatabaseAction) → env (Effect.push_database rq) ≡ true
  pub takes_device :
      (hash : String) (rq : Request DeviceAction) → env (Effect.push_device hash rq) ≡ true

-- The clients that wait for an answer to a command: QuitCollector gets none, and another type than the
-- known ones closes the connection.
abbrev pub asks : Client → RequestType → List Client
asks c RequestType.quit_collector = []
asks c RequestType.other = []
asks c _ = c ∷ []

abbrev pub NoneFor : String → List (String × Request DeviceAction) → Type 0
NoneFor hash [] = Unit {0}
NoneFor hash ((h, rq) ∷ qs) = (h ≢ hash) × NoneFor hash qs

abbrev pub DatabaseHandler : Type 0 → Type 0 → Type 0 → Type 0
DatabaseHandler Db L C = Env → ℕ → Request DatabaseAction → Exec (State Db L C) Bool

module _ (D : SafeList DataSource) (S : SafeList ℕ) {Db : Type 0}
    (handler : DatabaseHandler Db D.Carrier S.Carrier) where
  -- A queue's handler runs on its oldest request, and returns.
  pub data Work (s t : System Db D.Carrier S.Carrier) : Type 0 where
    dispatches :
        (env : Env) (rq : Request DispatcherAction) (rest : List (Request DispatcherAction))
        (b : Bool) (m : Manager D.Carrier S.Carrier) (es : List Effect)
        → IsTaking env
        → s.dispatcher ≡ rq ∷ rest
        → Dispatcher.request_handler S env rq s.state.manager ≡ ok (b, m, es)
        → t ≡ absorb es (record s.state { manager = m }) (record s { dispatcher = rest })
        → Work s t
    stores :
        (env : Env) (now : ℕ) (rq : Request DatabaseAction) (rest : List (Request DatabaseAction))
        (b : Bool) (st : State Db D.Carrier S.Carrier) (es : List Effect)
        → IsTaking env
        → s.database ≡ rq ∷ rest
        → handler env now rq s.state ≡ ok (b, st, es)
        → t ≡ absorb es st (record s { database = rest })
        → Work s t
    serves :
        (env : Env) (hash : String) (rq : Request DeviceAction) (a : ℕ)
        (before after : List (String × Request DeviceAction)) (b : Bool) (d : Device D.Carrier)
        (es : List Effect)
        → IsTaking env
        → s.devices ≡ before ++ ((hash, rq) ∷ after)
        → NoneFor hash before
        → get_device S hash s.state.manager ≡ some a
        → Collect.request_handler D env rq (s.state.manager.device a) ≡ ok (b, d, es)
        → t ≡ absorb es (set_device a d s.state) (record s { devices = before ++ after })
        → Work s t

  -- As many runs of handlers, with no event between them.
  pub data Works (s : System Db D.Carrier S.Carrier)
      : ℕ → System Db D.Carrier S.Carrier → Type 0 where
    still : Works s 0 s
    busy :
        {n : ℕ} {t u : System Db D.Carrier S.Carrier} → Works s n t → Work t u → Works s (suc n) u

  module _ {P Q : Type 0} (commands : ControlClient.Unpack P)
      (messages : MonitorConnection.Unpack Q) (pid : ℕ) where
    -- Something comes from outside: a client's command, a monitor's message, a lane's timer, or the
    -- end of a device's connection.
    pub data Event (s t : System Db D.Carrier S.Carrier) : Type 0 where
      asks_for :
          (env : Env) (c : Client) (rq : ControlRequest P) (b : Bool) (es : List Effect)
          → IsTaking env
          → ControlClient.handle_type commands env c rq rq.type s.state ≡ ok (b, s.state, es)
          → t ≡ absorb es s.state (record s { commands = asks c rq.type ++ s.commands })
          → Event s t
      tells :
          (hash : String) (x : MonitorConnection.Incoming Q) (b : Bool) (es : List Effect)
          → MonitorConnection.handle messages pid hash x s.state ≡ ok (b, s.state, es)
          → t ≡ absorb es s.state s
          → Event s t
      ticks :
          (env : Env) (lane : UpdateLane) (a : ℕ) (b : Bool) (d : Device D.Carrier)
          (es : List Effect)
          → update_lane D env lane (s.state.manager.device a) ≡ ok (b, d, es)
          → t ≡ absorb es (set_device a d s.state) s
          → Event s t
      drops :
          (a : ℕ) (u : Unit {0}) (d : Device D.Carrier) (es : List Effect)
          → connection_removed (s.state.manager.device a) ≡ ok (u, d, es)
          → t ≡ absorb es (set_device a d s.state) s
          → Event s t

    -- What can have become of `s`.
    pub data Reach (s : System Db D.Carrier S.Carrier)
        : System Db D.Carrier S.Carrier → Type 0 where
      start : Reach s s
      works : {t u : System Db D.Carrier S.Carrier} → Reach s t → Work t u → Reach s u
      hears : {t u : System Db D.Carrier S.Carrier} → Reach s t → Event t u → Reach s u

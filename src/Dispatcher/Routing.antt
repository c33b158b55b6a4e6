-- ===== src/Dispatcher/Routing.antt =====
-- Where the dispatcher sends what a client asks for.
use tkmcollector.Prelude.{ℕ, String, Bool, ◌≡◌, Option, none, some, List, [], ◌∷◌, arith}
use tkmcollector.Outcome.{Outcome, ok}
use tkmcollector.SafeList.{SafeList}
use tkmcollector.Defaults.{Arg, Val, val_for}
use tkmcollector.Defaults.Args.{find}
use tkmcollector.Messages.{StatusWhat}
use tkmcollector.Requests.{BulkData, DispatcherAction, DatabaseAction, DeviceAction, Request}
use tkmcollector.Exec.{Env, Effect}
use tkmcollector.DeviceManager.{Manager, get_device, hash_at}
use tkmcollector.Dispatcher.{
  do_connect_device, do_disconnect_device, do_start_collecting, do_stop_collecting,
  do_init_database, do_get_devices, do_get_sessions, do_remove_session, do_add_device,
  do_remove_device, handle_action, request_handler,
}

-- The database's action for an action that the dispatcher passes on to it.
abbrev pub database_action : DispatcherAction → Option DatabaseAction
database_action DispatcherAction.init_database = some DatabaseAction.init_database
database_action DispatcherAction.get_devices = some DatabaseAction.get_devices
database_action DispatcherAction.get_sessions = some DatabaseAction.get_sessions
database_action DispatcherAction.remove_session = some DatabaseAction.rem_session
database_action DispatcherAction.add_device = some DatabaseAction.add_device
database_action DispatcherAction.remove_device = some DatabaseAction.remove_device
database_action _ = none

-- The device's action for an action that the dispatcher passes on to it.
abbrev pub device_action : DispatcherAction → Option DeviceAction
device_action DispatcherAction.connect_device = some DeviceAction.connect
device_action DispatcherAction.disconnect_device = some DeviceAction.disconnect
device_action DispatcherAction.start_collecting = some DeviceAction.start_collecting
device_action DispatcherAction.stop_collecting = some DeviceAction.stop_collecting
device_action _ = none

-- The refusal of a request for an unknown device: an error for the client, without the request's id.
pub record IsRefusal (rq r : Request DispatcherAction) : Type 0 where
  pub same_client : r.client ≡ rq.client
  pub is_status : r.action ≡ DispatcherAction.send_status
  pub is_error : find Arg.status r.args ≡ some (val_for Val.status_error)
  pub no_id : find Arg.request_id r.args ≡ none

-- The effects are one request that carries the client and the arguments of `rq`, for the database or
-- for the device that the hash of its data finds; or one refusal, where it finds none.
abbrev pub ArePassed :
    Request DispatcherAction
    → Option DatabaseAction
    → Option DeviceAction
    → Option String
    → List Effect
    → Type 0
ArePassed rq (some a) none hash (Effect.push_database r ∷ []) =
    (r.client ≡ rq.client) × (r.args ≡ rq.args) × (r.action ≡ a)
ArePassed rq none (some a) (some hash) (Effect.push_device h r ∷ []) =
    (r.client ≡ rq.client)
    × (r.args ≡ rq.args)
    × (r.action ≡ a)
    × (r.bulk_data ≡ rq.bulk_data)
    × (h ≡ hash)
ArePassed rq none (some a) none (Effect.push_dispatcher r ∷ []) = IsRefusal rq r
ArePassed rq _ _ _ _ = ⊥

-- The hash of the device that a request is for, if the manager has it.
abbrev pub target : {L : Type 0} (S : SafeList ℕ) → Manager L S.Carrier → BulkData → Option String
target S m (BulkData.device_data d) = elim (get_device S d.hash m) [
  | none ↦ none
  | some a ↦ some (hash_at m.device a)
]
target S m _ = none

abbrev pub Passed :
    {M : Type 0}
    → Request DispatcherAction
    → DispatcherAction
    → Option String
    → Outcome (Bool × M × List Effect)
    → Type 0
Passed rq a hash (ok (b, m, es)) = ArePassed rq (database_action a) (device_action a) hash es
Passed rq a hash _ = ⊥

abbrev IsDeviceData : BulkData → Type 0
IsDeviceData (BulkData.device_data d) = Unit {0}
IsDeviceData _ = ⊥

-- The status of a control message for a value.
abbrev pub what_of : Val → StatusWhat
what_of Val.status_okay = StatusWhat.okay
what_of Val.status_busy = StatusWhat.busy
what_of _ = StatusWhat.error

-- The actions that are passed on, with data that names a device where the dispatcher reads it.
abbrev pub IsPassed : DispatcherAction → BulkData → Type 0
IsPassed DispatcherAction.connect_device b = IsDeviceData b
IsPassed DispatcherAction.disconnect_device b = IsDeviceData b
IsPassed DispatcherAction.start_collecting b = IsDeviceData b
IsPassed DispatcherAction.stop_collecting b = IsDeviceData b
IsPassed DispatcherAction.quit_collector b = ⊥
IsPassed DispatcherAction.send_status b = ⊥
IsPassed DispatcherAction.quit b = ⊥
IsPassed _ b = Unit {0}

module _ {L : Type 0} (S : SafeList ℕ) (env : Env) (rq : Request DispatcherAction)
    (m : Manager L S.Carrier) where
  handle_action-Passed :
      (a : DispatcherAction)
      → IsPassed a rq.bulk_data
      → Passed rq a (target S m rq.bulk_data) (handle_action S env rq a m)
  unfolding handle_action do_init_database do_get_devices do_get_sessions do_remove_session
      do_add_device do_remove_device do_connect_device do_disconnect_device do_start_collecting
      do_stop_collecting
  handle_action-Passed DispatcherAction.quit_collector c = elim c [ ]
  handle_action-Passed DispatcherAction.send_status c = elim c [ ]
  handle_action-Passed DispatcherAction.quit c = elim c [ ]
  handle_action-Passed DispatcherAction.connect_device c = ground arith
  handle_action-Passed DispatcherAction.disconnect_device c = ground arith
  handle_action-Passed DispatcherAction.start_collecting c = ground arith
  handle_action-Passed DispatcherAction.stop_collecting c = ground arith
  handle_action-Passed _ c = ground arith

  -- A request that the dispatcher passes on becomes exactly one request with its client and its
  -- arguments: of the corresponding action for the database, or of the corresponding action and with
  -- the same data for the device that the hash in its data finds. Where the hash finds no device, it
  -- becomes one error status for the client, and that one carries no request id.
  pub request_handler-Passed :
      IsPassed rq.action rq.bulk_data
      → Passed rq rq.action (target S m rq.bulk_data) (request_handler S env rq m)
  unfolding request_handler
  request_handler-Passed c = handle_action-Passed rq.action c

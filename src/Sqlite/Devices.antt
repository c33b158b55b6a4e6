-- ===== src/Sqlite/Devices.antt =====
-- The handlers for the devices' table, and `doInitDatabase` (source/SQLiteDatabase.cpp).
pub mod Replies
pub mod Loading
use tkmcollector.Prelude.{
  ℕ, suc, String, Bool, true, false, Option, none, some, List, [], ◌∷◌, ◌&&◌, not, if◌then◌else◌,
  str_eq,
}
use tkmcollector.SafeList.{SafeList}
use tkmcollector.Number.{int_to_string, is_minus_one}
use tkmcollector.Defaults.{Arg, Val, val_for}
use tkmcollector.Defaults.Args.{is_forced, Args, emplace, find, count}
use tkmcollector.Messages.{DeviceData, DeviceState, Envelope, Mesg, Recipient}
use tkmcollector.Requests.{Request, DatabaseAction, as_device_data, reply_args, reply_with, reply}
use tkmcollector.Exec.{
  Env, Exec, Effect, EventSource, Peer, ◌>>=◌, ◌>>◌, pure, gets, modify, call, perform, lift,
  write_envelope,
}
use tkmcollector.MonitorDevice.{Device, new_device, set_state}
use tkmcollector.MonitorDevice.DataSource.{DataSource}
use tkmcollector.DeviceManager
use tkmcollector.DeviceManager.{Manager, store, on_device, load_devices}
use tkmcollector.Query
use tkmcollector.Query.Schema.{Backend}
use tkmcollector.Query.Tables.{create_tables, drop_tables}
use tkmcollector.Database.{State, require_client, outcome, load_each, with_device_states}
use tkmcollector.Sqlite.{Engine, run_query}
use tkmcollector.Sqlite.Rows.{no_rows, device_rows, found_id}

abbrev pub sql : Backend
sql = Backend.sqlite3

module _ (e : Engine) (D : SafeList DataSource) (S : SafeList ℕ) where
  abbrev Db : Type 0 → Type 0
  Db A = Exec (State e.Db D.Carrier S.Carrier) A

  unfoldable pub do_init_database : Env → Request DatabaseAction → Db Bool
  do_init_database env rq = do
    if is_forced rq.args then (do run_query e (drop_tables sql) no_rows; pure tt) else pure tt
    (okay, _) ← run_query e (create_tables sql) no_rows
    call env (
        Effect.push_dispatcher (
          reply rq (outcome okay)
            (if okay then "Database init complete" else "Database init failed. Query error")))

  unfoldable pub do_load_devices : Db Bool
  do_load_devices = do
    (okay, list) ← run_query e (Query.get_devices sql) device_rows
    if okay then load_each D S list else pure tt
    pure true

  unfoldable pub do_get_devices : Env → Request DatabaseAction → Db Bool
  do_get_devices env rq = do
    client ← require_client rq
    (okay, list) ← run_query e (Query.get_devices sql) device_rows
    m ← gets (λ s. s.manager)
    reason ←
        if okay
        then (do
          written ← write_envelope env (Peer.control client) (record {
            mesg = Mesg.device_list (with_device_states S m list);
            target = Recipient.any;
            origin = Recipient.collector;
          })
          pure (if written then "List provided" else "Failed to send device list"))
        else pure "Query failed"
    call env (Effect.push_dispatcher (reply rq (outcome okay) reason))

  -- The deletion of an existing device, where the client forces the addition.
  abbrev forced_removal : Args → String → Db (Unit {0})
  forced_removal args hash =
      if is_forced args
      then (do run_query e (Query.rem_device sql hash) no_rows; pure tt)
      else pure tt

  -- doAddDevice after the check: the insertion and its answer.
  abbrev insert_device : Env → Request DatabaseAction → DeviceData → Db Bool
  insert_device env rq d = do
    (okay, _) ←
        run_query e (Query.add_device sql d.hash d.name d.address (int_to_string d.port)) no_rows
    if okay then (do load_devices env; pure tt) else pure tt
    call env (
        Effect.push_dispatcher
          (reply rq (outcome okay) (if okay then "Device added" else "Failed to add device")))

  unfoldable pub do_add_device : Env → Request DatabaseAction → Db Bool
  unfolding load_devices
  do_add_device env rq = do
    require_client rq
    d ← lift (as_device_data rq.bulk_data)
    (okay, id) ← run_query e (Query.has_device sql d.hash) found_id
    if not okay
        then call env
            (Effect.push_dispatcher (reply rq Val.status_error "Cannot check existing device"))
        else if count Arg.forced rq.args
        then (do forced_removal rq.args d.hash; insert_device env rq d)
        else if not (is_minus_one id)
        then call env (Effect.push_dispatcher (reply rq Val.status_error "Device already exists"))
        else insert_device env rq d

  unfoldable pub do_remove_device : Env → Request DatabaseAction → Db Bool
  do_remove_device env rq = do
    require_client rq
    d ← lift (as_device_data rq.bulk_data)
    (okay, id) ← run_query e (Query.has_device sql d.hash) found_id
    if not okay
        then call env
            (Effect.push_dispatcher (reply rq Val.status_error "Cannot check existing device"))
        else do
          let args =
              if is_minus_one id
              then emplace Arg.reason "No such device"
                  (emplace Arg.status (val_for Val.status_error) (reply_args rq))
              else reply_args rq
          (removed, _) ← run_query e (Query.rem_device sql d.hash) no_rows
          let args' =
              emplace Arg.reason (if removed then "Device removed" else "Failed to remove device")
                args
          call env (
              Effect.push_dispatcher
                (reply_with rq (emplace Arg.status (val_for (outcome removed)) args')))

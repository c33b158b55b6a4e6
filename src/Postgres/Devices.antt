-- ===== src/Postgres/Devices.antt =====
-- The handlers for the devices' table, and `doInitDatabase` (source/PQDatabase.cpp).
use tkmcollector.Prelude.{
  is_some, is_some, ℕ, String, Bool, true, false, List, Option, none, some, not, if◌then◌else◌,
}
use tkmcollector.SafeList.{SafeList}
use tkmcollector.Number.{int_to_string, is_minus_one}
use tkmcollector.Defaults.{Arg, Val, val_for}
use tkmcollector.Defaults.Args.{is_forced, Args, emplace, count}
use tkmcollector.Messages.{DeviceData, Mesg, Recipient}
use tkmcollector.Requests.{Request, DatabaseAction, as_device_data, reply_args, reply_with, reply}
use tkmcollector.Exec.{Env, Exec, Effect, Peer, ◌>>=◌, ◌>>◌, pure, gets, call, lift, write_envelope}
use tkmcollector.MonitorDevice.DataSource.{DataSource}
use tkmcollector.DeviceManager.{load_devices}
use tkmcollector.Options.{Options}
use tkmcollector.Query
use tkmcollector.Query.Tables.{create_tables, drop_tables}
use tkmcollector.Database.{State, require_client, outcome, load_each, with_device_states}
use tkmcollector.Postgres.{Pqxx, pq, run_transaction, reconnect}
use tkmcollector.Query.Columns.{DeviceColumn}
use tkmcollector.Postgres.Rows.{device_position, device_rows, found_id, read_with}

module _ (p : Pqxx) (D : SafeList DataSource) (S : SafeList ℕ) where
  abbrev Db : Type 0 → Type 0
  Db A = Exec (State p.Connection D.Carrier S.Carrier) A

  -- doInitDatabase over an open connection; a failure to drop the tables is only logged.
  abbrev init_tables : Env → Request DatabaseAction → Db Bool
  init_tables env rq = do
    if is_forced rq.args then (do run_transaction p (drop_tables pq); pure tt) else pure tt
    rows ← run_transaction p (create_tables pq)
    call env (
        Effect.push_dispatcher (
          reply rq (outcome (is_some rows)) (
            if is_some rows
            then "Database init complete"
            else "Database init failed. Query error")))

  unfoldable pub do_init_database : Options → Env → Request DatabaseAction → Db Bool
  do_init_database o env rq = do
    open' ← gets (λ s. p.is_open s.db)
    ready ← if open' then pure true else reconnect p o
    if ready
        then init_tables env rq
        else call env
            (Effect.push_dispatcher (reply rq Val.status_error "Database connection error"))

  -- The loop of doLoadDevices, where its query succeeded.
  abbrev pub load_some : Option (List DeviceData) → Db (Unit {0})
  load_some none = pure tt
  load_some (some list) = load_each D S list

  unfoldable pub do_load_devices : Db Bool
  do_load_devices = do
    rows ← run_transaction p (Query.get_devices pq)
    load_some (read_with p (device_rows p) rows)
    pure true

  unfoldable pub do_get_devices : Env → Request DatabaseAction → Db Bool
  do_get_devices env rq = do
    client ← require_client rq
    rows ← run_transaction p (Query.get_devices pq)
    m ← gets (λ s. s.manager)
    let list = read_with p (device_rows p) rows
    reason ← elim list [
      | none ↦ pure "Query failed"
      | some ds ↦ (do
        written ← write_envelope env (Peer.control client) (record {
          mesg = Mesg.device_list (with_device_states S m ds);
          target = Recipient.any;
          origin = Recipient.collector;
        })
        pure (if written then "List provided" else "Failed to send device list"))
    ]
    call env (Effect.push_dispatcher (reply rq (outcome (is_some list)) reason))

  abbrev insertion : DeviceData → String
  insertion d = Query.add_device pq d.hash d.name d.address (int_to_string d.port)

  -- The end of doAddDevice: the insertion, unless the forced removal before it failed.
  abbrev insert_device : Env → Request DatabaseAction → DeviceData → Bool → Db Bool
  insert_device env rq d ready = do
    okay ←
        if ready
        then (do rows ← run_transaction p (insertion d); pure (is_some rows))
        else pure false
    if okay then (do load_devices env; pure tt) else pure tt
    call env (
        Effect.push_dispatcher
          (reply rq (outcome okay) (if okay then "Device added" else "Failed to add device")))

  -- Whether the addition may go on after the removal that a client forces.
  abbrev forced_removal : Args → String → Db Bool
  forced_removal args hash =
      if is_forced args
      then (do rows ← run_transaction p (Query.rem_device pq hash); pure (is_some rows))
      else pure true

  unfoldable pub do_add_device : Env → Request DatabaseAction → Db Bool
  unfolding load_devices
  do_add_device env rq = do
    require_client rq
    d ← lift (as_device_data rq.bulk_data)
    rows ← run_transaction p (Query.has_device pq d.hash)
    let (okay, id) = found_id p (device_position DeviceColumn.id) rows
    if not okay
        then call env
            (Effect.push_dispatcher (reply rq Val.status_error "Cannot check existing device"))
        else if count Arg.forced rq.args
        then (do ready ← forced_removal rq.args d.hash; insert_device env rq d ready)
        else if not (is_minus_one id)
        then call env (Effect.push_dispatcher (reply rq Val.status_error "Device already exists"))
        else insert_device env rq d true

  unfoldable pub do_remove_device : Env → Request DatabaseAction → Db Bool
  do_remove_device env rq = do
    require_client rq
    d ← lift (as_device_data rq.bulk_data)
    rows ← run_transaction p (Query.has_device pq d.hash)
    let (okay, id) = found_id p (device_position DeviceColumn.id) rows
    if not okay
        then call env
            (Effect.push_dispatcher (reply rq Val.status_error "Cannot check existing device"))
        else do
          let args =
              if is_minus_one id
              then emplace Arg.reason "No such device"
                  (emplace Arg.status (val_for Val.status_error) (reply_args rq))
              else reply_args rq
          removal ← run_transaction p (Query.rem_device pq d.hash)
          let args' =
              emplace Arg.reason
                (if is_some removal then "Device removed" else "Failed to remove device") args
          call env (
              Effect.push_dispatcher
                (reply_with rq (emplace Arg.status (val_for (outcome (is_some removal))) args')))

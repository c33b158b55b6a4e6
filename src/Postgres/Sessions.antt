-- ===== src/Postgres/Sessions.antt =====
-- The handlers for the sessions' table (source/PQDatabase.cpp). `now` is `time(NULL)`.
use tkmcollector.Prelude.{
  is_some, is_some, ℕ, Bool, true, List, Option, none, some, not, if◌then◌else◌, str_eq,
}
use tkmcollector.Outcome.{runtime_error}
use tkmcollector.Number.{to_string, is_minus_one}
use tkmcollector.Defaults.{Arg, Val, val_for}
use tkmcollector.Defaults.Args.{count, at, emplace}
use tkmcollector.Messages.{Mesg, Recipient, SessionData}
use tkmcollector.Requests.{
  Request, DatabaseAction, as_device_data, as_session_data, as_session_info, reply_args, reply_with,
  reply,
}
use tkmcollector.Exec.{
  Env, Exec, Effect, Peer, ◌>>=◌, ◌>>◌, pure, call, lift, throw, write_envelope,
}
use tkmcollector.Query
use tkmcollector.Database.{State, require_client, outcome, end_each, with_session_states}
use tkmcollector.Postgres.{Pqxx, pq, run_transaction}
use tkmcollector.Query.Columns.{SessionColumn}
use tkmcollector.Postgres.Rows.{session_position, session_rows, found_id, read_with}

module _ (p : Pqxx) {L C : Type 0} where
  -- The loop of doCleanSessions, where its query succeeded.
  abbrev pub end_some : Env → Option (List SessionData) → Exec (State p.Connection L C) (Unit {0})
  end_some env none = pure tt
  end_some env (some list) = end_each env list

  unfoldable pub do_clean_sessions : Env → Exec (State p.Connection L C) Bool
  do_clean_sessions env = do
    rows ← run_transaction p (Query.get_sessions pq)
    end_some env (read_with p (session_rows p) rows)
    pure true

  unfoldable pub do_get_sessions : Env → Request DatabaseAction → Exec (State p.Connection L C) Bool
  do_get_sessions env rq = do
    client ← require_client rq
    d ← lift (as_device_data rq.bulk_data)
    rows ←
        run_transaction p
          (if str_eq d.hash "" then Query.get_sessions pq else Query.get_sessions_of pq d.hash)
    let list = read_with p (session_rows p) rows
    reason ← elim list [
      | none ↦ pure "Query failed"
      | some ss ↦ (do
        written ← write_envelope env (Peer.control client) (record {
          mesg = Mesg.session_list (with_session_states ss);
          target = Recipient.any;
          origin = Recipient.collector;
        })
        pure (if written then "List provided" else "Failed to send session list"))
    ]
    call env (Effect.push_dispatcher (reply rq (outcome (is_some list)) reason))

  -- A session with the new one's hash is removed, also where a later row could not be read.
  unfoldable pub do_add_session : ℕ → Request DatabaseAction → Exec (State p.Connection L C) Bool
  do_add_session now rq = do
    info ← lift (as_session_info rq.bulk_data)
    if not (count Arg.device_hash rq.args) then throw (runtime_error "Invalid arguments") else do
      rows ← run_transaction p (Query.has_session pq info.hash)
      let (_, id) = found_id p (session_position SessionColumn.id) rows
      if is_minus_one id
          then pure tt
          else (do run_transaction p (Query.rem_session pq info.hash); pure tt)
      device ← lift (at Arg.device_hash rq.args)
      run_transaction p (
          Query.add_session pq info.hash info.name (to_string info.core_count) device
            (to_string now))
      pure true

  unfoldable pub do_rem_session : Env → Request DatabaseAction → Exec (State p.Connection L C) Bool
  do_rem_session env rq = do
    require_client rq
    x ← lift (as_session_data rq.bulk_data)
    rows ← run_transaction p (Query.has_session pq x.hash)
    let (okay, id) = found_id p (session_position SessionColumn.id) rows
    if not okay
        then call env
            (Effect.push_dispatcher (reply rq Val.status_error "Cannot check existing session"))
        else if is_minus_one id
        then call env (Effect.push_dispatcher (reply rq Val.status_error "No such session"))
        else do
          removal ← run_transaction p (Query.rem_session pq x.hash)
          let args =
              emplace Arg.reason
                (if is_some removal then "Session removed" else "Failed to remove session")
                (reply_args rq)
          call env (
              Effect.push_dispatcher
                (reply_with rq (emplace Arg.status (val_for (outcome (is_some removal))) args)))

  unfoldable pub do_end_session : ℕ → Request DatabaseAction → Exec (State p.Connection L C) Bool
  do_end_session now rq =
      if not (count Arg.session_hash rq.args)
      then throw (runtime_error "Invalid arguments")
      else (do
        hash ← lift (at Arg.session_hash rq.args)
        run_transaction p (Query.end_session pq hash (to_string now))
        pure true)

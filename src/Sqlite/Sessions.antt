-- ===== src/Sqlite/Sessions.antt =====
-- The handlers for the sessions' table (source/SQLiteDatabase.cpp). `now` is `time(NULL)`.
pub mod Replies
pub mod Ending
use tkmcollector.Prelude.{
  ℕ, String, Bool, true, false, none, some, List, [], ◌∷◌, not, if◌then◌else◌, str_eq, nat_eq,
}
use tkmcollector.Outcome.{runtime_error}
use tkmcollector.Number.{to_string, is_minus_one}
use tkmcollector.Defaults.{Arg, Val, val_for}
use tkmcollector.Defaults.Args.{emplace, find, count, at}
use tkmcollector.Messages.{Envelope, Mesg, Recipient, SessionData, SessionInfo, SessionState}
use tkmcollector.Requests.{
  Request, DatabaseAction, as_device_data, as_session_data, as_session_info, plain_request,
  reply_args, reply_with, reply,
}
use tkmcollector.Exec.{
  Env, Exec, Effect, Peer, ◌>>=◌, ◌>>◌, pure, call, lift, perform, throw, write_envelope,
}
use tkmcollector.MonitorDevice.{end_session_request}
use tkmcollector.Query
use tkmcollector.Database.{State, require_client, outcome, end_each, with_session_states}
use tkmcollector.Sqlite.{Engine, run_query}
use tkmcollector.Sqlite.Rows.{no_rows, session_rows, found_id}
use tkmcollector.Sqlite.Devices.{sql}

module _ (e : Engine) {L C : Type 0} where
  unfoldable pub do_clean_sessions : Env → Exec (State e.Db L C) Bool
  do_clean_sessions env = do
    (okay, list) ← run_query e (Query.get_sessions sql) session_rows
    if okay then end_each env list else pure tt
    pure true

  unfoldable pub do_get_sessions : Env → Request DatabaseAction → Exec (State e.Db L C) Bool
  do_get_sessions env rq = do
    client ← require_client rq
    d ← lift (as_device_data rq.bulk_data)
    (okay, list) ←
        run_query e
          (if str_eq d.hash "" then Query.get_sessions sql else Query.get_sessions_of sql d.hash)
          session_rows
    reason ←
        if okay
        then (do
          written ← write_envelope env (Peer.control client) (record {
            mesg = Mesg.session_list (with_session_states list);
            target = Recipient.any;
            origin = Recipient.collector;
          })
          pure (if written then "List provided" else "Failed to send session list"))
        else pure "Query failed"
    call env (Effect.push_dispatcher (reply rq (outcome okay) reason))

  -- The removal of a session that has the new session's hash; its result is not read.
  abbrev collision : Bool → Bool → String → Exec (State e.Db L C) (Unit {0})
  collision okay missing hash =
      if okay
      then if missing
        then pure tt
        else (do run_query e (Query.rem_session sql hash) no_rows; pure tt)
      else pure tt

  unfoldable pub do_add_session : ℕ → Request DatabaseAction → Exec (State e.Db L C) Bool
  do_add_session now rq = do
    info ← lift (as_session_info rq.bulk_data)
    if not (count Arg.device_hash rq.args) then throw (runtime_error "Invalid arguments") else do
      (okay, id) ← run_query e (Query.has_session sql info.hash) found_id
      collision okay (is_minus_one id) info.hash
      device ← lift (at Arg.device_hash rq.args)
      run_query e
          (Query.add_session sql info.hash info.name (to_string info.core_count) device
            (to_string now))
          no_rows
      pure true

  unfoldable pub do_rem_session : Env → Request DatabaseAction → Exec (State e.Db L C) Bool
  do_rem_session env rq = do
    require_client rq
    s ← lift (as_session_data rq.bulk_data)
    (okay, id) ← run_query e (Query.has_session sql s.hash) found_id
    if not okay
        then call env
            (Effect.push_dispatcher (reply rq Val.status_error "Cannot check existing session"))
        else do
          let args =
              if is_minus_one id
              then emplace Arg.reason "No such session"
                  (emplace Arg.status (val_for Val.status_error) (reply_args rq))
              else reply_args rq
          (removed, _) ← run_query e (Query.rem_session sql s.hash) no_rows
          let args' =
              emplace Arg.reason (if removed then "Session removed" else "Failed to remove session")
                args
          call env (
              Effect.push_dispatcher
                (reply_with rq (emplace Arg.status (val_for (outcome removed)) args')))

  unfoldable pub do_end_session : ℕ → Request DatabaseAction → Exec (State e.Db L C) Bool
  do_end_session now rq =
      if not (count Arg.session_hash rq.args)
      then throw (runtime_error "Invalid arguments")
      else (do
        hash ← lift (at Arg.session_hash rq.args)
        run_query e (Query.end_session sql hash (to_string now)) no_rows
        pure true)

-- ===== src/Sqlite/Sessions/Replies.antt =====
-- What a client hears of its request on the sessions' table.
use tkmcollector.Prelude.{Bool, ◌≡◌, some, List, arith}
use tkmcollector.Outcome.{Outcome, Returns, returns}
use tkmcollector.Messages.{DeviceData, SessionData}
use tkmcollector.Requests.{BulkData, Client, DatabaseAction, Request}
use tkmcollector.Requests.Reply.{AreReply}
use tkmcollector.Exec.{Env, Effect}
use tkmcollector.Exec.Trace.{dispatcher_requests}
use tkmcollector.Database.{State}
use tkmcollector.Sqlite.{Engine, run_query}
use tkmcollector.Sqlite.Reading.{callback_ending}
use tkmcollector.Sqlite.Sessions.{do_get_sessions, do_rem_session}

module _ (e : Engine) {L C : Type 0} (env : Env) (rq : Request DatabaseAction) (s : State e.Db L C)
    (c : Client) (from : rq.client ≡ some c) where
  abbrev Replied : Outcome (Bool × State e.Db L C × List Effect) → Type 0
  Replied = Returns λ (_, _, es). AreReply rq (dispatcher_requests es)

  -- Where the rows of its query can be read, GetSessions of a client, with a device's data, returns,
  -- having put exactly one status for that client, with the request's id, on the dispatcher's queue.
  pub get_sessions-Replied :
      (d : DeviceData)
      → rq.bulk_data ≡ BulkData.device_data d
      → callback_ending e s.db DatabaseAction.get_sessions (BulkData.device_data d) ≡ returns
      → Replied (do_get_sessions e env rq s)
  unfolding do_get_sessions run_query
  get_sessions-Replied d names read = ground arith

  -- Where the rows of its query can be read, RemoveSession of a client, with a session's data, returns,
  -- having put exactly one status for that client, with the request's id, on the dispatcher's queue.
  pub rem_session-Replied :
      (x : SessionData)
      → rq.bulk_data ≡ BulkData.session_data x
      → callback_ending e s.db DatabaseAction.rem_session (BulkData.session_data x) ≡ returns
      → Replied (do_rem_session e env rq s)
  unfolding do_rem_session run_query
  rem_session-Replied x names read = ground arith

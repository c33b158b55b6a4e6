-- ===== src/Sqlite/Sessions/Ending.antt =====
-- The beginning and the end of a session in the database.
use tkmcollector.Prelude.{
  ℕ, String, Bool, true, false, ◌≡◌, some, List, [], ◌∷◌, ◌++◌, arith, if◌then◌else◌, sym, subst,
  append-nil,
}
use tkmcollector.Outcome.{ok, Returns}
use tkmcollector.Number.{ℤ, is_minus_one, to_string}
use tkmcollector.Defaults.{Arg}
use tkmcollector.Defaults.Args.{find}
use tkmcollector.Messages.{SessionData, SessionInfo}
use tkmcollector.Requests.{BulkData, DatabaseAction, Request}
use tkmcollector.Exec.{Env, Effect, ◌>>◌, pure}
use tkmcollector.Exec.Rules.{>>=-Returns}
use tkmcollector.Exec.Trace.{database_requests, database_requests-append, queries}
use tkmcollector.Query
use tkmcollector.Database.Loops.{open_sessions, end_each-open_sessions}
use tkmcollector.Database.{State, end_each}
use tkmcollector.Sqlite.{Engine, run_query}
use tkmcollector.Sqlite.Rows.{found_id, session_rows}
use tkmcollector.Sqlite.Devices.{sql}
use tkmcollector.Sqlite.Sessions.{do_clean_sessions, do_add_session}

module _ (e : Engine) {L C : Type 0} where
  sessions_read :
      (s : State e.Db L C) (list : List SessionData)
      → (e.exec s.db (Query.get_sessions sql)).okay ≡ true
      → session_rows (e.exec s.db (Query.get_sessions sql)).rows ≡ ok list
      → Returns
          (λ ((o, l), _, es). (o ≡ true) × (l ≡ list) × (database_requests es ≡ []))
          (run_query e (Query.get_sessions sql) session_rows s)
  unfolding run_query
  sessions_read s list okay read = ground arith

  ends_of_rows :
      (env : Env) (list : List SessionData) (a : Bool × List SessionData) (s : State e.Db L C)
      (es : List Effect)
      → (a.0 ≡ true) × (a.1 ≡ list) × (database_requests es ≡ [])
      → Returns
          (λ (_, _, fs). database_requests (es ++ fs) ≡ open_sessions list)
          (((if a.0 then end_each env a.1 else pure tt) >> pure true) s)
  ends_of_rows env list (false, l) s es (h, k, q) = cc
  ends_of_rows env list (true, l) s es (h, k, q) =
      >>=-Returns (λ (_, _, fs). database_requests fs ≡ open_sessions list)
        (λ (_, _, fs). database_requests (es ++ fs) ≡ open_sessions list) (end_each env l) s
        (λ _. pure true)
        (subst
          (λ l'.
            Returns (λ (_, _, fs). database_requests fs ≡ open_sessions list) (end_each env l' s))
          (sym k) (end_each-open_sessions env list s))
        (λ _ _ fs r.
          rw (database_requests-append, database_requests-append, q, r)
            (append-nil (open_sessions list)))

  pub clean_sessions_ends :
      (env : Env) (s : State e.Db L C) (list : List SessionData)
      → (e.exec s.db (Query.get_sessions sql)).okay ≡ true
      → session_rows (e.exec s.db (Query.get_sessions sql)).rows ≡ ok list
      → Returns
          (λ (_, _, es). database_requests es ≡ open_sessions list)
          (do_clean_sessions e env s)
  unfolding do_clean_sessions
  clean_sessions_ends env s list okay read =
      >>=-Returns (λ ((o, l), _, es). (o ≡ true) × (l ≡ list) × (database_requests es ≡ []))
        (λ (_, _, es). database_requests es ≡ open_sessions list)
        (run_query e (Query.get_sessions sql) session_rows) s
        (λ (o, l). (if o then end_each env l else pure tt) >> pure true)
        (sessions_read s list okay read) (ends_of_rows env list)

  -- AddSession for a device, when the check for the session's hash succeeds, removes a session with
  -- that hash first, if the check found one, and then inserts the new one, whatever the removal does.
  pub add_session-queries :
      (now : ℕ) (rq : Request DatabaseAction) (s : State e.Db L C) (info : SessionInfo)
      (device : String) (id : ℤ)
      → rq.bulk_data ≡ BulkData.session_info info
      → find Arg.device_hash rq.args ≡ some device
      → (e.exec s.db (Query.has_session sql info.hash)).okay ≡ true
      → found_id (e.exec s.db (Query.has_session sql info.hash)).rows ≡ ok id
      → Returns
          (λ (_, _, es).
            queries es
            ≡ Query.has_session sql info.hash
              ∷ ((if is_minus_one id then [] else Query.rem_session sql info.hash ∷ [])
                  ++ (Query.add_session sql info.hash info.name
                        (to_string info.core_count)
                        device
                        (to_string now)
                      ∷ [])))
          (do_add_session e now rq s)
  unfolding do_add_session run_query
  add_session-queries now rq s info device id names for' okay read = ground arith

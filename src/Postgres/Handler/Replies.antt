-- ===== src/Postgres/Handler/Replies.antt =====
-- What a client hears of any request that the dispatcher passes on to the PostgreSQL database.
use tkmcollector.Prelude.{ℕ, Bool, ◌≡◌, ◌∙◌, ap, refl, some, List, arith}
use tkmcollector.Outcome.{Ending, Outcome, Returns, ending, returns}
use tkmcollector.SafeList.{SafeList}
use tkmcollector.Messages.Payload.{UnpackData}
use tkmcollector.Requests.{BulkData, Client, DatabaseAction, Request}
use tkmcollector.Requests.Reply.{AreReply}
use tkmcollector.Exec.{Env, Effect}
use tkmcollector.Exec.Trace.{dispatcher_requests}
use tkmcollector.MonitorDevice.DataSource.{DataSource}
use tkmcollector.Options.{Options}
use tkmcollector.Database.{State}
use tkmcollector.Database.Requests.{IsClientRequest, expected}
use tkmcollector.Database.Answers.{AreAnswered, AreAnswered-of_ending, client_expected}
use tkmcollector.Postgres.Handler.Endings.{connected, ending-postgres_handler}
use tkmcollector.Postgres.{Pqxx, connection_info, reconnect, run_transaction}
use tkmcollector.Postgres.Devices.{
  do_init_database, do_get_devices, do_add_device, do_remove_device,
}
use tkmcollector.Postgres.Sessions.{do_get_sessions, do_rem_session}
use tkmcollector.Postgres.Handler.{handle_action, request_handler}

module _ (p : Pqxx) (o : Options) (D : SafeList DataSource) (S : SafeList ℕ) (unpack : UnpackData)
    (env : Env) (now : ℕ) (rq : Request DatabaseAction) (s : State p.Connection D.Carrier S.Carrier)
    (c : Client) (from : rq.client ≡ some c) where
  -- How it ends that the handler opens the connection again, for the requests where it does.
  abbrev opening : DatabaseAction → Ending
  opening a = connected (p.is_open s.db) (ending (p.connect (connection_info o))) a returns

  abbrev Replied : Outcome (Bool × State p.Connection D.Carrier S.Carrier × List Effect) → Type 0
  Replied = Returns λ (_, _, es). AreReply rq (dispatcher_requests es)

  handle_action-Replied :
      (a : DatabaseAction) (b : BulkData)
      → rq.bulk_data ≡ b
      → IsClientRequest a b
      → opening a ≡ returns
      → Replied (handle_action p o D S unpack env now rq a s)
  unfolding handle_action do_init_database do_get_devices do_add_device do_remove_device
      do_get_sessions do_rem_session reconnect run_transaction
  handle_action-Replied DatabaseAction.init_database b carries h opens = ground arith
  handle_action-Replied DatabaseAction.get_devices b carries h opens = ground arith
  handle_action-Replied DatabaseAction.add_device (BulkData.device_data d) carries h opens =
      ground arith
  handle_action-Replied DatabaseAction.remove_device (BulkData.device_data d) carries h opens =
      ground arith
  handle_action-Replied DatabaseAction.get_sessions (BulkData.device_data d) carries h opens =
      ground arith
  handle_action-Replied DatabaseAction.rem_session (BulkData.session_data x) carries h opens =
      ground arith
  handle_action-Replied _ _ carries h opens = elim h [ ]

  -- The handling of any request that the dispatcher passes on to the PostgreSQL database for a client,
  -- with the data that it needs, returns, having put exactly one status for that client, with the
  -- request's id, on the dispatcher's queue, also where the connection stays closed, a transaction
  -- throws or a row cannot be read; except that InitDatabase over a closed connection throws where the
  -- attempt to open it again throws.
  pub postgres_handler-Replied :
      IsClientRequest rq.action rq.bulk_data
      → AreAnswered rq
          (connected (p.is_open s.db) (ending (p.connect (connection_info o))) rq.action returns)
          (request_handler p o D S unpack env now rq s)
  unfolding request_handler
  postgres_handler-Replied h =
      let expects =
        ap (λ w. expected rq.action w rq.bulk_data rq.args) from
        ∙ client_expected rq.action rq.bulk_data c rq.args h in
      AreAnswered-of_ending rq (opening rq.action) _
        (λ opens. handle_action-Replied rq.action rq.bulk_data refl h opens)
        (ending-postgres_handler p o D S unpack env now rq s
          ∙ ap (connected (p.is_open s.db) (ending (p.connect (connection_info o))) rq.action)
              expects)

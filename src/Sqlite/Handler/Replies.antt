-- ===== src/Sqlite/Handler/Replies.antt =====
-- What a client hears of any request that the dispatcher passes on to the database.
use tkmcollector.Prelude.{ℕ, Bool, ◌≡◌, ◌∙◌, ap, refl, some, List}
use tkmcollector.Outcome.{Outcome, Returns, returns}
use tkmcollector.SafeList.{SafeList}
use tkmcollector.Messages.Payload.{UnpackData}
use tkmcollector.Requests.{BulkData, Client, DatabaseAction, Request}
use tkmcollector.Requests.Reply.{AreReply}
use tkmcollector.Exec.{Env, Effect}
use tkmcollector.Exec.Trace.{dispatcher_requests}
use tkmcollector.MonitorDevice.DataSource.{DataSource}
use tkmcollector.Database.{State}
use tkmcollector.Database.Requests.{IsClientRequest, expected}
use tkmcollector.Database.Answers.{AreAnswered, AreAnswered-of_ending, client_expected}
use tkmcollector.Sqlite.{Engine}
use tkmcollector.Sqlite.Reading.{callback_ending, callback_ending-reading, reading}
use tkmcollector.Sqlite.Rows.Readable.{and_then}
use tkmcollector.Sqlite.Handler.Endings.{ending-sqlite_handler}
use tkmcollector.Sqlite.Devices.Replies.{
  init_database-Replied, get_devices-Replied, add_device-Replied, remove_device-Replied,
}
use tkmcollector.Sqlite.Sessions.Replies.{get_sessions-Replied, rem_session-Replied}
use tkmcollector.Sqlite.Handler.{handle_action, request_handler}

module _ (e : Engine) (D : SafeList DataSource) (S : SafeList ℕ) (unpack : UnpackData) (env : Env)
    (now : ℕ) (rq : Request DatabaseAction) (s : State e.Db D.Carrier S.Carrier) (c : Client)
    (from : rq.client ≡ some c) where
  abbrev Replied : Outcome (Bool × State e.Db D.Carrier S.Carrier × List Effect) → Type 0
  Replied = Returns λ (_, _, es). AreReply rq (dispatcher_requests es)

  handle_action-Replied :
      (a : DatabaseAction) (b : BulkData)
      → rq.bulk_data ≡ b
      → IsClientRequest a b
      → callback_ending e s.db a b ≡ returns
      → Replied (handle_action e D S unpack env now rq a s)
  unfolding handle_action
  handle_action-Replied DatabaseAction.init_database b carries h read =
      init_database-Replied e D S env rq s
  handle_action-Replied DatabaseAction.get_devices b carries h read =
      get_devices-Replied e D S env rq s c from read
  handle_action-Replied DatabaseAction.add_device (BulkData.device_data d) carries h read =
      add_device-Replied e D S env rq s c from d carries read
  handle_action-Replied DatabaseAction.remove_device (BulkData.device_data d) carries h read =
      remove_device-Replied e D S env rq s c from d carries read
  handle_action-Replied DatabaseAction.get_sessions (BulkData.device_data d) carries h read =
      get_sessions-Replied e env rq s c from d carries read
  handle_action-Replied DatabaseAction.rem_session (BulkData.session_data x) carries h read =
      rem_session-Replied e env rq s c from x carries read
  handle_action-Replied _ _ carries h read = elim h [ ]

  -- The handling of any request that the dispatcher passes on for a client, with the data that it
  -- needs: where the rows that the engine gives to its first query can be read, it returns, having put
  -- exactly one status for that client, with the request's id, on the dispatcher's queue, whether its
  -- queries succeed or not; where they cannot be read, it throws.
  pub sqlite_handler-Replied :
      IsClientRequest rq.action rq.bulk_data
      → AreAnswered rq
          (reading e s.db rq.action rq.bulk_data)
          (request_handler e D S unpack env now rq s)
  unfolding request_handler
  sqlite_handler-Replied h =
      let expects =
        ap (λ w. expected rq.action w rq.bulk_data rq.args) from
        ∙ client_expected rq.action rq.bulk_data c rq.args h in
      AreAnswered-of_ending rq (reading e s.db rq.action rq.bulk_data) _
        (λ read.
          handle_action-Replied rq.action rq.bulk_data refl h
            (callback_ending-reading e s.db rq.action rq.bulk_data ∙ read))
        (ending-sqlite_handler e D S unpack env now rq s
          ∙ ap (λ w. and_then w (reading e s.db rq.action rq.bulk_data)) expects)

-- ===== src/Sqlite/Devices/Replies.antt =====
-- What a client hears of its request on the devices' table, and what was run for it.
use tkmcollector.Prelude.{
  ℕ, String, Bool, true, false, ◌≡◌, some, none, Option, List, [], ◌∷◌, arith, if◌then◌else◌,
}
use tkmcollector.Outcome.{Outcome, ok, Returns, returns}
use tkmcollector.SafeList.{SafeList}
use tkmcollector.Number.{ℤ, is_minus_one, int_to_string}
use tkmcollector.Defaults.{Arg}
use tkmcollector.Defaults.Args.{find}
use tkmcollector.Messages.{DeviceData}
use tkmcollector.Requests.{BulkData, Client, DatabaseAction, DispatcherAction, Request}
use tkmcollector.Requests.Reply.{AreReply}
use tkmcollector.Exec.{Env, Effect}
use tkmcollector.Exec.Trace.{dispatcher_requests, queries}
use tkmcollector.MonitorDevice.DataSource.{DataSource}
use tkmcollector.Query
use tkmcollector.Database.{State}
use tkmcollector.Sqlite.{Engine, run_query}
use tkmcollector.Sqlite.Rows.{found_id}
use tkmcollector.Sqlite.Reading.{callback_ending}
use tkmcollector.Sqlite.Devices.{
  sql, do_init_database, do_get_devices, do_add_device, do_remove_device,
}

module _ (e : Engine) (D : SafeList DataSource) (S : SafeList ℕ) (env : Env)
    (rq : Request DatabaseAction) (s : State e.Db D.Carrier S.Carrier) where
  abbrev Replied : Outcome (Bool × State e.Db D.Carrier S.Carrier × List Effect) → Type 0
  Replied = Returns λ (_, _, es). AreReply rq (dispatcher_requests es)

  -- InitDatabase returns, having put exactly one status for its client, if it has one, with the
  -- request's id, on the dispatcher's queue.
  pub init_database-Replied : Replied (do_init_database e D S env rq s)
  unfolding do_init_database run_query
  init_database-Replied = ground arith

  module _ (c : Client) (from : rq.client ≡ some c) where
    pub get_devices-Replied :
        callback_ending e s.db DatabaseAction.get_devices rq.bulk_data ≡ returns
        → Replied (do_get_devices e D S env rq s)
    unfolding do_get_devices run_query
    get_devices-Replied read = ground arith

    module _ (d : DeviceData) (names : rq.bulk_data ≡ BulkData.device_data d)
        (read : callback_ending e s.db DatabaseAction.add_device (BulkData.device_data d)
          ≡ returns) where
      pub add_device-Replied : Replied (do_add_device e D S env rq s)
      unfolding do_add_device run_query
      add_device-Replied = ground arith

      pub remove_device-Replied : Replied (do_remove_device e D S env rq s)
      unfolding do_remove_device run_query
      remove_device-Replied = ground arith

abbrev pub answer : List (Request DispatcherAction) → Option String × Option String
answer [] = (none, none)
answer (r ∷ rs) = (find Arg.status r.args, find Arg.reason r.args)

abbrev insertion : DeviceData → String
insertion d = Query.add_device sql d.hash d.name d.address (int_to_string d.port)

-- What AddDevice runs after its check, for a device that exists or not and a client that forces it or
-- not: nothing, the insertion, or the deletion and the insertion.
abbrev pub addition : (exists' forced : Bool) → DeviceData → List String
addition exists' true d = Query.rem_device sql d.hash ∷ insertion d ∷ []
addition true false d = []
addition false false d = insertion d ∷ []

module _ (e : Engine) (D : SafeList DataSource) (S : SafeList ℕ) (env : Env)
    (rq : Request DatabaseAction) (s : State e.Db D.Carrier S.Carrier) (c : Client) (d : DeviceData)
    (id : ℤ) (from : rq.client ≡ some c) (names : rq.bulk_data ≡ BulkData.device_data d)
    (checked : (e.exec s.db (Query.has_device sql d.hash)).okay ≡ true)
    (read : found_id (e.exec s.db (Query.has_device sql d.hash)).rows ≡ ok id) where
  -- When the check of RemoveDevice succeeds, the handler returns and deletes by the hash whatever the
  -- check found; if the check found no device, the client gets the status Error and the reason
  -- No such device, also where the deletion succeeds; if it found one, the status is that of the
  -- deletion.
  pub remove_device_answer :
      Returns
        (λ (_, s', es).
          (queries es ≡ Query.has_device sql d.hash ∷ Query.rem_device sql d.hash ∷ [])
          × (is_minus_one id ≡ true
              → answer (dispatcher_requests es) ≡ (some "Error", some "No such device"))
          × (is_minus_one id ≡ false
              → answer (dispatcher_requests es) ≡ (
                  if (e.exec
                    (e.exec s.db (Query.has_device sql d.hash)).db
                    (Query.rem_device sql d.hash)).okay
                  then (some "Okay", some "Device removed")
                  else (some "Error", some "Failed to remove device"))))
        (do_remove_device e D S env rq s)
  unfolding do_remove_device run_query
  remove_device_answer = ground arith

-- ===== src/MonitorDevice/Sessions.antt =====
-- Sessions: when collecting starts and stops, and what becomes of a session.
use tkmcollector.Prelude.{String, Bool, ◌≡◌, Option, none, some, List, [], ◌∷◌, arith}
use tkmcollector.Outcome.{Outcome, ok, Returns}
use tkmcollector.Defaults.{Arg, Val, val_for}
use tkmcollector.Defaults.Args.{find, emplace}
use tkmcollector.Messages.{DeviceState, SessionInfo}
use tkmcollector.Requests.{
  BulkData, DatabaseAction, DeviceAction, DispatcherAction, Request, plain_request,
}
use tkmcollector.Exec.{Env, Effect}
use tkmcollector.Exec.Trace.{dispatcher_requests, database_requests, device_requests}
use tkmcollector.MonitorDevice.{Device}
use tkmcollector.MonitorDevice.Collect.{do_set_session, do_start_collecting, do_stop_collecting}

-- What StartCollecting queues for the device, and the status that the client gets, by state.
abbrev pub start_table : DeviceState → Option DeviceAction × Val
start_table DeviceState.connected = (some DeviceAction.request_session, Val.status_okay)
start_table DeviceState.idle = (some DeviceAction.request_session, Val.status_okay)
start_table DeviceState.session_set = (some DeviceAction.start_stream, Val.status_okay)
start_table _ = (none, Val.status_error)

abbrev pub stop_table : DeviceState → Option DeviceAction × Val
stop_table DeviceState.collecting = (some DeviceAction.stop_stream, Val.status_okay)
stop_table _ = (none, Val.status_error)

abbrev pub queued : Option DeviceAction → List (Request DeviceAction)
queued none = []
queued (some a) = plain_request a ∷ []

abbrev statuses : List (Request DispatcherAction) → List (Option String)
statuses [] = []
statuses (r ∷ rs) = find Arg.status r.args ∷ statuses rs

abbrev pub Follows :
    {L : Type 0}
    → Option DeviceAction × Val
    → Device L
    → Outcome (Bool × Device L × List Effect)
    → Type 0
Follows (next, what) d (ok (b, d', es)) =
    (device_requests es ≡ queued next)
    × (statuses (dispatcher_requests es) ≡ some (val_for what) ∷ [])
    × (d' ≡ d)
Follows _ d _ = ⊥

-- StartCollecting and StopCollecting always return, leave the device as it is, queue the request
-- that the tables give for the device's state, and answer with the status that they give.
pub collecting_tables :
    {L : Type 0} (env : Env) (rq : Request DeviceAction) (d : Device L)
    → Follows (start_table d.device_data.state) d (do_start_collecting env rq d)
      × Follows (stop_table d.device_data.state) d (do_stop_collecting env rq d)
unfolding do_start_collecting do_stop_collecting
collecting_tables env rq d = ground arith

-- SetSession with a session's data stores the session under the device and starts the stream, and
-- asks the database for nothing else: a session that the device had before is not ended.
pub set_session_requests :
    {L : Type 0} (env : Env) (rq : Request DeviceAction) (d : Device L) (info : SessionInfo)
    → rq.bulk_data ≡ BulkData.session_info info
    → Returns
        (λ (_, d', es).
          (d'.session_hash ≡ info.hash)
          × (d'.device_data.state ≡ DeviceState.session_set)
          × (device_requests es ≡ plain_request DeviceAction.start_stream ∷ [])
          × (database_requests es
              ≡ record (plain_request DatabaseAction.add_session) {
                args = emplace Arg.device_hash d.device_data.hash [];
                bulk_data = BulkData.session_info info;
              }
                ∷ []))
        (do_set_session env rq d)
unfolding do_set_session
set_session_requests env rq d info e = ground arith

-- ===== src/MonitorDevice/Removal.antt =====
-- What the loss of a connection does, and what it leaves behind.
use tkmcollector.Prelude.{
  ℕ, suc, String, Bool, true, ◌||◌, ◌&&◌, not, ◌++◌, ◌≡◌, none, some, List, [], ◌∷◌, arith,
  if◌then◌else◌, str_eq,
}
use tkmcollector.Outcome.{Returns}
use tkmcollector.Number.{to_uint16}
use tkmcollector.Defaults.{Val}
use tkmcollector.SafeList.{SafeList}
use tkmcollector.Messages.{DeviceState}
use tkmcollector.Requests.{DatabaseAction, DeviceAction, Request, reply}
use tkmcollector.Exec.{Env, Effect, EventSource, UpdateLane, ◌>>◌}
use tkmcollector.Exec.Trace.{dispatcher_requests, database_requests, device_requests}
use tkmcollector.MonitorDevice.{Device, Connection, connection_removed, end_session_request}
use tkmcollector.MonitorDevice.DataSource.{DataSource}
use tkmcollector.MonitorDevice.Connect.{do_connect}
use tkmcollector.MonitorDevice.Collect.{do_start_stream, do_stop_stream}

-- The lanes whose timers the effects put into the event loop, and those they take out.
abbrev pub timers_added : List Effect → List UpdateLane
timers_added [] = []
timers_added (Effect.add_event_source (EventSource.lane_timer lane) ∷ es) = lane ∷ timers_added es
timers_added (e ∷ es) = timers_added es

abbrev pub timers_removed : List Effect → List UpdateLane
timers_removed [] = []
timers_removed (Effect.rem_event_source (EventSource.lane_timer lane) ∷ es) =
    lane ∷ timers_removed es
timers_removed (e ∷ es) = timers_removed es

abbrev pub sockets_closed : List Effect → ℕ
sockets_closed [] = 0
sockets_closed (Effect.close_socket ∷ es) = suc (sockets_closed es)
sockets_closed (e ∷ es) = sockets_closed es

-- The requests that end a session: one, unless there never was a session.
abbrev pub ended : String → List (Request DatabaseAction)
ended hash = if str_eq hash "" then [] else end_session_request hash ∷ []

pub record IsReleased {L : Type 0} (d : Device L) (c : Connection) (d' : Device L)
    (es : List Effect) : Type 0 where
  pub no_connection : d'.connection ≡ none
  pub disconnected : d'.device_data.state ≡ DeviceState.disconnected
  pub session_ended : database_requests es ≡ ended d.session_hash
  pub socket_closed : sockets_closed es ≡ (if c.is_open then 1 else 0)
  pub no_reply : dispatcher_requests es ≡ []
  pub same_session : d'.session_hash ≡ d.session_hash

-- When the event loop drops a device's connection, the device has no connection and is
-- Disconnected, its session is ended in the database if it ever had one, an open socket is closed
-- once, no client hears of it, and the device keeps the hash of the session.
pub connection_removed-IsReleased :
    {L : Type 0} (d : Device L) (c : Connection)
    → d.connection ≡ some c
    → Returns (λ (_, d', es). IsReleased d c d' es) (connection_removed d)
unfolding connection_removed
connection_removed-IsReleased d c linked = ground arith

-- Whether a socket reaches its host: at once, or after a wait in which select neither fails nor runs
-- out of time, and either reports an exception or leaves no error on the socket.
abbrev pub is_reached : Env → (address : String) (port : ℕ) → Bool
is_reached env address port =
    env (Effect.connect_socket address port)
    || env Effect.errno_is_in_progress
      && env Effect.select_returned
      && not (env Effect.select_timed_out)
      && (env Effect.fd_in_exceptions
          || env Effect.getsockopt_returned && not (env Effect.so_error_is_set))

-- The connection was kept: nobody hears of it yet, and the device goes on with its descriptor.
pub record IsKept {L : Type 0} (rq : Request DeviceAction) (d' : Device L) (es : List Effect)
    : Type 0 where
  pub linked : d'.connection ≡ some (record { is_open = true; prepared = true })
  pub no_reply : dispatcher_requests es ≡ []
  pub no_ending : database_requests es ≡ []
  pub no_closing : sockets_closed es ≡ 0
  pub goes_on : device_requests es ≡ record rq { action = DeviceAction.send_descriptor } ∷ []

-- The connection failed: its socket is closed, the client hears of it, and the last session is ended.
pub record IsFailed {L : Type 0} (rq : Request DeviceAction) (hash : String) (d' : Device L)
    (es : List Effect) : Type 0 where
  pub no_connection : d'.connection ≡ none
  pub disconnected : d'.device_data.state ≡ DeviceState.disconnected
  pub one_reply : dispatcher_requests es ≡ reply rq Val.status_error "Connection Failed" ∷ []
  pub session_ended : database_requests es ≡ ended hash
  pub socket_closed : sockets_closed es ≡ 1
  pub stops : device_requests es ≡ []

-- A Connect request of a device with no connection that makes its socket and resolves the host
-- returns. If the host is reached, the connection is kept and the device goes on to SendDescriptor,
-- with no answer and no session ended. If it is not, on whichever of the ways in which it can fail,
-- the socket is closed, the client gets one error, and the database is asked to end the device's last
-- session, if it ever had one, also where that session was ended before.
pub do_connect_ends_again :
    {L : Type 0} (env : Env) (rq : Request DeviceAction) (d : Device L)
    → d.connection ≡ none
    → env Effect.create_socket ≡ true
    → env (Effect.resolve_host d.device_data.address) ≡ true
    → Returns
        (λ (_, d', es).
          if is_reached env d.device_data.address (to_uint16 d.device_data.port)
          then IsKept rq d' es
          else IsFailed rq d.session_hash d' es)
        (do_connect env rq d)
unfolding do_connect
do_connect_ends_again env rq d none' made resolved = ground arith

abbrev pub three_lanes : List UpdateLane
three_lanes = UpdateLane.fast ∷ UpdateLane.pace ∷ UpdateLane.slow ∷ []

module _ (S : SafeList DataSource) (d : Device S.Carrier) where
  -- A stream that is started puts the timers of the fast, the pace and the slow lane into the event
  -- loop, and one that is stopped takes the three out again. One that is started twice puts each in
  -- twice, and its stop takes each out only once.
  pub start_stop_timers :
      Returns
        (λ (_, _, es). (timers_added es ≡ three_lanes) × (timers_removed es ≡ three_lanes))
        ((do do_start_stream S; do_stop_stream) d)
      × Returns
          (λ (_, _, es).
            (timers_added es ≡ three_lanes ++ three_lanes) × (timers_removed es ≡ three_lanes))
          ((do do_start_stream S; do_start_stream S; do_stop_stream) d)
  unfolding do_start_stream do_stop_stream
  start_stop_timers = ground arith

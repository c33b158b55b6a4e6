-- ===== src/MonitorDevice.antt =====
-- source/MonitorDevice.cpp, source/IDevice.h, and `Connection::disconnect` of
-- source/Connection.cpp: the state of a device, its connection and its update lanes.
pub mod DataSource
pub mod Lanes
pub mod Connect
pub mod Replies
pub mod Removal
pub mod Sessions
pub mod Reach
pub mod Endings
pub mod Transitions
pub mod Collect
use tkmcollector.Prelude.{
  ℕ, String, Bool, true, false, Option, none, some, List, [], ◌∷◌, ◌++◌, if◌then◌else◌, str_eq, not,
  ◌&&◌,
}
use tkmcollector.Outcome.{runtime_error}
use tkmcollector.Defaults.{Arg}
use tkmcollector.Defaults.Args.{Args, emplace}
use tkmcollector.Messages.{DeviceData, DeviceState, SessionInfo}
use tkmcollector.Requests.{DatabaseAction, Request, DeviceAction, plain_request}
use tkmcollector.Exec.{
  Env, Exec, Effect, EventSource, Peer, UpdateLane, ◌>>=◌, ◌>>◌, pure, gets, modify, call, perform,
  throw, fault,
}

-- Connection: whether `m_sockFd` is open, and whether `setPrepare` has let events through.
pub record Connection : Type 0 where
  pub is_open : Bool
  pub prepared : Bool

-- MonitorDevice over IDevice. `L` is the type of `m_dataSources`; a lane's timer is a pointer that
-- is null or not; `session_hash` is the hash of `m_sessionData`.
pub record Device (L : Type 0) : Type 0 where
  pub device_data : DeviceData
  pub session_hash : String
  pub session_info : SessionInfo
  pub data_sources : L
  pub connection : Option Connection
  pub fast_lane_timer : Bool
  pub pace_lane_timer : Bool
  pub slow_lane_timer : Bool

abbrev no_session : SessionInfo
no_session = record {
  hash = "";
  name = "";
  core_count = 0;
  fast_lane_interval = 0;
  pace_lane_interval = 0;
  slow_lane_interval = 0;
  fast_lane_sources = [];
  pace_lane_sources = [];
  slow_lane_sources = [];
}

-- The EndSession request that `updateState` makes.
abbrev pub end_session_request : String → Request DatabaseAction
end_session_request hash = record (plain_request DatabaseAction.end_session) {
  args = emplace Arg.session_hash hash [];
}

abbrev pub is_disconnected : DeviceState → Bool
is_disconnected DeviceState.disconnected = true
is_disconnected _ = false

module _ {L : Type 0} where
  -- MonitorDevice(data)
  unfoldable pub new_device : L → DeviceData → Device L
  new_device sources d = record {
    device_data = d;
    session_hash = "";
    session_info = no_session;
    data_sources = sources;
    connection = none;
    fast_lane_timer = false;
    pace_lane_timer = false;
    slow_lane_timer = false;
  }

  abbrev pub set_state : DeviceState → Device L → Device L
  set_state s d = record d { device_data = record d.device_data { state = s } }

  abbrev pub set_connection : Connection → Device L → Device L
  set_connection c d = record d { connection = some c }

  unfoldable pub push_request : Env → Request DeviceAction → Exec (Device L) Bool
  push_request env rq d = call env (Effect.push_device d.device_data.hash rq) d

  unfoldable pub update_state : DeviceState → Exec (Device L) (Unit {0})
  update_state s = do
    modify (set_state s)
    hash ← gets (λ d. d.session_hash)
    if is_disconnected s && not (str_eq hash "")
        then perform (Effect.push_database (end_session_request hash))
        else pure tt

  unfoldable pub create_connection : Env → Exec (Device L) Bool
  create_connection env d = elim d.connection [
    | some c ↦ pure false d
    | none ↦
        (do
          made ← call env Effect.create_socket
          if made
              then (do
                modify (set_connection (record { is_open = true; prepared = false }))
                pure true)
              else throw (runtime_error "Fail to create Connection socket"))
          d
  ]

  stop_lane : Bool → UpdateLane → Exec (Device L) (Unit {0})
  stop_lane timer lane =
      if timer
      then (do
        perform (Effect.stop_timer lane)
        perform (Effect.rem_event_source (EventSource.lane_timer lane)))
      else pure tt

  unfoldable pub stop_update_lanes : Exec (Device L) (Unit {0})
  unfolding stop_lane
  stop_update_lanes = do
    fast ← gets (λ d. d.fast_lane_timer)
    stop_lane fast UpdateLane.fast
    pace ← gets (λ d. d.pace_lane_timer)
    stop_lane pace UpdateLane.pace
    slow ← gets (λ d. d.slow_lane_timer)
    stop_lane slow UpdateLane.slow

  unfoldable pub delete_connection : Exec (Device L) (Unit {0})
  unfolding stop_update_lanes
  delete_connection = do stop_update_lanes; modify (λ d. record d { connection = none })

  -- Connection::disconnect, on a connection of this device; the result is the closed connection.
  unfoldable pub disconnect : Connection → Exec (Device L) Connection
  unfolding update_state
  disconnect c = do
    update_state DeviceState.disconnected
    if c.is_open then perform Effect.close_socket else pure tt
    pure (record c { is_open = false })

  -- The last reference to a connection goes away: `~Connection`.
  unfoldable pub destroy : Option Connection → Exec (Device L) (Unit {0})
  unfolding disconnect
  destroy none = pure tt
  destroy (some c) = do disconnect c; pure tt

  -- The event loop drops the connection: the finalize callback, and then the last reference.
  unfoldable pub connection_removed : Exec (Device L) (Unit {0})
  unfolding delete_connection destroy
  connection_removed = do c ← gets (λ d. d.connection); delete_connection; destroy c

  -- `getConnection()->...`
  abbrev pub require_connection : Exec (Device L) Connection
  require_connection d = elim d.connection [ none ↦ fault d | some c ↦ pure c d ]

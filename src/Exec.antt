-- ===== src/Exec.antt =====
-- Stateful code with calls to its surroundings: the queues and the event loop of bswinfra, sockets,
-- and libtaskmonitor's readers and writers. A call is recorded, and the surroundings answer it.
pub mod Rules
pub mod Trace
pub mod ReadLoop
pub use tkmcollector.Run.{
  Run, ◌>>=◌, ◌>>◌, after, pure, gets, modify, lift, throw, fault, call, perform,
}
use tkmcollector.Prelude.{
  ℕ, String, Bool, true, false, Option, none, some, List, [], ◌∷◌, ◌++◌, if◌then◌else◌,
}
use tkmcollector.Outcome.{Outcome, ok, throws, null_pointer, Exception}
use tkmcollector.Messages.{Envelope}
use tkmcollector.Query.Schema.{Backend}
use tkmcollector.Requests.{Client, Request, DispatcherAction, DatabaseAction, DeviceAction}

-- DataSource::UpdateLane
pub data UpdateLane : Type 0 where
  fast pace slow any : UpdateLane

-- What can be added to the event loop and removed from it.
pub data EventSource : Type 0 where
  device_queue : String → EventSource
  device_connection : String → EventSource
  lane_timer : UpdateLane → EventSource

-- The far end of a socket: a device's monitor, by the device's hash, or a control client.
pub data Peer : Type 0 where
  monitor : String → Peer
  control : Client → Peer

pub data Effect : Type 0 where
  push_dispatcher : Request DispatcherAction → Effect
  push_database : Request DatabaseAction → Effect
  push_device : String → Request DeviceAction → Effect
  send : Peer → Envelope → Effect
  flush : Peer → Effect
  create_socket : Effect
  resolve_host : String → Effect
  connect_socket : String → ℕ → Effect
  errno_is_in_progress select_returned select_timed_out fd_in_exceptions : Effect
  getsockopt_returned so_error_is_set : Effect
  close_socket : Effect
  send_descriptor : String → Effect
  add_event_source : EventSource → Effect
  rem_event_source : EventSource → Effect
  start_timer : UpdateLane → ℕ → Effect
  stop_timer : UpdateLane → Effect
  query : String → Effect
  directory_exists create_directories : String → Effect
  open_database : Backend → Effect
  start_server : Effect
  exit_success : Effect

-- What each call of the surroundings returns; for a call that returns nothing the value is not read.
abbrev pub Env : Type 0
Env = Effect → Bool

abbrev pub Exec : Type 0 → Type 0 → Type 0
Exec = Run Effect

module _ {S : Type 0} where
  -- IClient::writeEnvelope and Connection::writeEnvelope: what the writer does not take at once
  -- counts as written.
  abbrev pub write_envelope : Env → Peer → Envelope → Exec S Bool
  write_envelope env peer e = do
    sent ← call env (send peer e)
    if sent then call env (flush peer) else pure true

-- ===== src/Server.antt =====
-- source/UDSServer.cpp: the socket on which control clients connect.
pub mod Clients
use tkmcollector.Prelude.{
  ℕ, leb, String, Bool, true, false, Option, none, some, List, if◌then◌else◌,
}
use tkmcollector.Outcome.{runtime_error}
use tkmcollector.Requests.{Client}
use tkmcollector.Run.{Run, ◌>>=◌, ◌>>◌, call, modify, perform, pure, throw, gets}
use tkmcollector.Options.{Default, Key, Options, default_for, get_for}
use tkmcollector.Helpers.{Codec, read_control_descriptor}

-- A directory and a name in it.
pub record SocketPath : Type 0 where
  pub directory : String
  pub name : String

pub data ServerCall : Type 0 where
  create_socket : ServerCall
  exists' remove : SocketPath → ServerCall
  -- `bind` on the address, which takes at most 107 bytes of the path.
  bind : SocketPath → ServerCall
  -- `chmod`, with the mode's octal digits.
  chmod : SocketPath → ℕ → ServerCall
  listen : ℕ → ServerCall
  close : ℕ → ServerCall
  -- SO_RCVTIMEO, in seconds.
  set_receive_timeout : Client → ℕ → ServerCall
  -- The client object is made and its events are enabled.
  add_client : Client → ServerCall
  add_event_source : ServerCall

-- `m_sockFd`, and whether `setPrepare` has let events through.
pub record UdsServer : Type 0 where
  pub sock_fd : ℕ
  pub prepared : Bool

abbrev pub Serving : Type 0 → Type 0
Serving = Run ServerCall UdsServer

-- `getFor(RuntimeDirectory) / ControlSocket`
unfoldable pub socket_path : Options → SocketPath
unfolding get_for
socket_path o = record {
  directory = get_for o Key.runtime_directory;
  name = default_for o.build Default.control_socket;
}

-- UDSServer(), with the descriptor that `socket` gives.
unfoldable pub create : {S : Type 0} → Option ℕ → Run ServerCall S UdsServer
create fd = do
  perform ServerCall.create_socket
  elim fd [
    | none ↦ throw (runtime_error "Fail to create UDSServer socket")
    | some n ↦ pure (record { sock_fd = n; prepared = false })
  ]

-- The callback of the event source: what `accept` gives, and what the client sends in three seconds.
unfoldable pub on_connection : Codec → Option Client → List ℕ → Serving Bool
on_connection k none stream = pure false
on_connection k (some client) stream = do
  perform (ServerCall.set_receive_timeout client 3)
  elim (read_control_descriptor k stream) [
    | none ↦ (do perform (ServerCall.close client); pure true)
    | some pid ↦ (do perform (ServerCall.add_client client); pure true)
  ]

unfoldable pub enable_events : Serving (Unit {0})
enable_events = perform ServerCall.add_event_source

-- An existing socket file goes first.
abbrev clean : (ServerCall → Bool) → SocketPath → Serving (Unit {0})
clean env path = do
  found ← call env (ServerCall.exists' path)
  if found
      then (do
        removed ← call env (ServerCall.remove path)
        if removed
            then pure tt
            else throw (runtime_error "Fail to remove existing UDSServer socket"))
      else pure tt

unfoldable pub start : (ServerCall → Bool) → Options → Serving (Unit {0})
unfolding socket_path
start env o = do
  clean env (socket_path o)
  bound ← call env (ServerCall.bind (socket_path o))
  if bound
      then (do
        perform (ServerCall.chmod (socket_path o) 666)
        modify (λ s. record s { prepared = true })
        listening ← call env (ServerCall.listen 10)
        if listening then pure tt else throw (runtime_error "UDSServer server listen failed"))
      else throw (runtime_error "UDSServer server bind failed")

-- The destructor calls it too.
unfoldable pub stop : Serving (Unit {0})
stop = do fd ← gets (λ s. s.sock_fd); if leb 1 fd then perform (ServerCall.close fd) else pure tt

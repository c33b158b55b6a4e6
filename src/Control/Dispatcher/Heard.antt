-- ===== src/Control/Dispatcher/Heard.antt =====
-- What the collector's dispatcher is asked when the tool handles a command.
use tkmcollector.Prelude.{
  ℕ, String, Bool, true, false, ◌≡◌, Option, none, some, List, [], ◌∷◌, arith, if◌then◌else◌,
}
use tkmcollector.Outcome.{ok, Returns}
use tkmcollector.Number.{ℤ, stoi}
use tkmcollector.Defaults.{Arg, Val, val_for}
use tkmcollector.Defaults.Args.{Args, emplace, find, is_forced}
use tkmcollector.Messages.{DeviceData, SessionData, no_device, no_session}
use tkmcollector.Requests as Collector
use tkmcollector.Requests.{Client, DispatcherAction}
use tkmcollector.Exec.{Env}
use tkmcollector.Exec.ReadLoop.{ReadEnd, read_loop}
use tkmcollector.Exec.Trace.{dispatcher_requests}
use tkmcollector.ControlClient as Client
use tkmcollector.ControlClient.{Unpack}
use tkmcollector.Options.{Options}
use tkmcollector.Helpers.{hash_for_device}
use tkmcollector.Control.{Action, Answers, Packed, Request, Tool}
use tkmcollector.Control.Dispatcher.{handle_action, request_handler}
use tkmcollector.Control.Trace.{sent}

-- Unpacking gives what was packed, for a message of the same type.
pub record IsUnpack (unpack : Unpack Packed) : Type 0 where
  pub device_data : (d : DeviceData) → unpack.device_data (Packed.device_data d) ≡ d
  pub session_data : (x : SessionData) → unpack.session_data (Packed.session_data x) ≡ x

-- The collector's action for the tool's.
abbrev pub collector_action : Action → Option DispatcherAction
collector_action Action.init_database = some DispatcherAction.init_database
collector_action Action.quit_collector = some DispatcherAction.quit_collector
collector_action Action.get_devices = some DispatcherAction.get_devices
collector_action Action.get_sessions = some DispatcherAction.get_sessions
collector_action Action.remove_session = some DispatcherAction.remove_session
collector_action Action.add_device = some DispatcherAction.add_device
collector_action Action.remove_device = some DispatcherAction.remove_device
collector_action Action.connect_device = some DispatcherAction.connect_device
collector_action Action.disconnect_device = some DispatcherAction.disconnect_device
collector_action Action.start_collecting = some DispatcherAction.start_collecting
collector_action Action.stop_collecting = some DispatcherAction.stop_collecting
collector_action _ = none

-- The id that the collector answers to: the command's name, but for StopCollecting.
abbrev pub request_id : Action → String
request_id Action.init_database = "InitDatabase"
request_id Action.quit_collector = "QuitCollector"
request_id Action.get_devices = "GetDevices"
request_id Action.get_sessions = "GetSessions"
request_id Action.remove_session = "RemoveSession"
request_id Action.add_device = "AddDevice"
request_id Action.remove_device = "RemoveDevice"
request_id Action.connect_device = "ConnectDevice"
request_id Action.disconnect_device = "DisconnectDevice"
request_id _ = "StartCollecting"

abbrev reads_forced : Action → Bool
reads_forced Action.get_devices = false
reads_forced _ = true

abbrev pub device : String → Collector.BulkData
device h = Collector.BulkData.device_data (record no_device { hash = h })

-- The data that stands for a command's arguments, if it has those that it needs.
abbrev pub Carries : (String → ℕ) → Action → Args → Collector.BulkData → Type 0
Carries hash Action.init_database args b = b ≡ Collector.BulkData.int 0
Carries hash Action.quit_collector args b = b ≡ Collector.BulkData.int 0
Carries hash Action.get_devices args b = b ≡ Collector.BulkData.int 0
Carries hash Action.get_sessions args b =
    b ≡ device (elim (find Arg.device_hash args) [ none ↦ "" | some h ↦ h ])
Carries hash Action.remove_session args b =
    (h : String) × (find Arg.session_hash args ≡ some h)
    × (b ≡ Collector.BulkData.session_data (record no_session { hash = h }))
Carries hash Action.add_device args b =
    (name address text : String) × (port : ℤ) × (find Arg.device_name args ≡ some name)
    × (find Arg.device_address args ≡ some address)
    × (find Arg.device_port args ≡ some text)
    × (stoi text ≡ ok port)
    × (b
        ≡ Collector.BulkData.device_data (record no_device {
          hash =
              hash_for_device hash
                (record no_device { name = name; address = address; port = port });
          name = name;
          address = address;
          port = port;
        }))
Carries hash Action.remove_device args b =
    (h : String) × (find Arg.device_hash args ≡ some h) × (b ≡ device h)
Carries hash Action.connect_device args b =
    (h : String) × (find Arg.device_hash args ≡ some h) × (b ≡ device h)
Carries hash Action.disconnect_device args b =
    (h : String) × (find Arg.device_hash args ≡ some h) × (b ≡ device h)
Carries hash Action.start_collecting args b =
    (h : String) × (find Arg.device_hash args ≡ some h) × (b ≡ device h)
Carries hash Action.stop_collecting args b =
    (h : String) × (find Arg.device_hash args ≡ some h) × (b ≡ device h)
Carries hash _ args b = ⊥

-- What the dispatcher of the collector is asked.
abbrev pub heard :
    Client
    → Action
    → Args
    → Collector.BulkData
    → Option DispatcherAction
    → List (Collector.Request DispatcherAction)
heard c a args b none = []
heard c a args b (some x) =
    record {
      client = some c;
      action = x;
      args =
          if reads_forced a
          then if is_forced args
            then emplace Arg.forced (val_for Val.true) (emplace Arg.request_id (request_id a) [])
            else emplace Arg.request_id (request_id a) []
          else emplace Arg.request_id (request_id a) [];
      bulk_data = b;
    }
    ∷ []

module _ (unpack : Unpack Packed) (unpacks : IsUnpack unpack) (o : Options) (hash : String → ℕ)
    (tool : Answers) (env : Env) (c : Client) where
  handle_action-heard :
      {M : Type 0} (a : Action) (rq : Request) (b : Collector.BulkData) (s : Tool) (m : M)
      → Carries hash a rq.args b
      → Returns
          (λ (_, _, cs).
            Returns
              (λ (_, _, es). dispatcher_requests es ≡ heard c a rq.args b (collector_action a))
              (Client.on_readable unpack env c (sent cs) ReadEnd.again m))
          (handle_action tool o hash rq a s)
  unfolding handle_action Client.on_readable read_loop
  handle_action-heard Action.init_database rq b s m h = ground arith
  handle_action-heard Action.quit_collector rq b s m h = ground arith
  handle_action-heard Action.get_devices rq b s m h = ground arith
  handle_action-heard Action.get_sessions rq b s m h = ground (
    arith,
    unpacks.device_data no_device,
    unpacks.device_data (record no_device {
      hash = elim (find Arg.device_hash rq.args) [ none ↦ "" | some x ↦ x ];
    }),
  )
  handle_action-heard Action.remove_session rq b s m (x, p, q) =
      ground (arith, unpacks.session_data (record no_session { hash = x }))
  handle_action-heard Action.add_device rq b s m (name, address, text, port, h0, h1, h2, h3, q) =
      let d = record no_device { name = name; address = address; port = port } in
      ground (arith, unpacks.device_data (record d { hash = hash_for_device hash d }))
  handle_action-heard Action.remove_device rq b s m (x, p, q) =
      ground (arith, unpacks.device_data (record no_device { hash = x }))
  handle_action-heard Action.connect_device rq b s m (x, p, q) =
      ground (arith, unpacks.device_data (record no_device { hash = x }))
  handle_action-heard Action.disconnect_device rq b s m (x, p, q) =
      ground (arith, unpacks.device_data (record no_device { hash = x }))
  handle_action-heard Action.start_collecting rq b s m (x, p, q) =
      ground (arith, unpacks.device_data (record no_device { hash = x }))
  handle_action-heard Action.stop_collecting rq b s m (x, p, q) =
      ground (arith, unpacks.device_data (record no_device { hash = x }))
  handle_action-heard _ rq b s m h = elim h [ ]

  -- When the tool handles a command with the arguments that it needs, and the collector reads what the
  -- tool wrote for it, the collector's dispatcher is asked exactly once for that command, for the
  -- tool's client, with the data that the arguments stand for, the force flag where the command has
  -- one, and a request id that is the command's name, but StartCollecting for StopCollecting. This
  -- holds whatever the surroundings of both answer.
  pub request_handler-heard :
      {M : Type 0} (rq : Request) (b : Collector.BulkData) (s : Tool) (m : M)
      → Carries hash rq.action rq.args b
      → Returns
          (λ (_, _, cs).
            Returns
              (λ (_, _, es).
                dispatcher_requests es ≡ heard c rq.action rq.args b (collector_action rq.action))
              (Client.on_readable unpack env c (sent cs) ReadEnd.again m))
          (request_handler tool o hash rq s)
  unfolding request_handler
  request_handler-heard rq b s m h = handle_action-heard rq.action rq b s m h

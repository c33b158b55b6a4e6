-- ===== src/Control/Main/Choice.antt =====
-- A command line that the tool accepts asks for one command.
use tkmcollector.Prelude.{
  String, Bool, true, false, ◌≡◌, Option, none, some, List, [], ◌∷◌, arith, if◌then◌else◌,
}
use tkmcollector.Outcome.{Returns}
use tkmcollector.Defaults.{Arg}
use tkmcollector.Defaults.Args.{Args, find}
use tkmcollector.Control.{Action, CommandAction, CommandRequest, Request, Tool}
use tkmcollector.Control.Command.{on_trigger, push_command}
use tkmcollector.Control.Main.{CommandLine, commands}
use tkmcollector.Control.Main.Refusal.{conflict, missing, refusal}
use tkmcollector.Control.Trace.{pushed}

-- The option that stands for a command.
abbrev pub asks : CommandLine → CommandAction → Bool
asks m CommandAction.init_database = m.init_database
asks m CommandAction.quit_collector = m.quit
asks m CommandAction.get_devices = m.list_devices
asks m CommandAction.get_sessions = m.list_sessions
asks m CommandAction.remove_session = m.remove_session
asks m CommandAction.add_device = m.add_device
asks m CommandAction.remove_device = m.remove_device
asks m CommandAction.connect_device = m.connect_device
asks m CommandAction.disconnect_device = m.disconnect_device
asks m CommandAction.start_collecting = m.start_collecting
asks m CommandAction.stop_collecting = m.stop_collecting
asks m CommandAction.quit = false

-- The request of the tool's queue that stands for a command.
abbrev pub tool_action : CommandAction → Action
tool_action CommandAction.init_database = Action.init_database
tool_action CommandAction.quit_collector = Action.quit_collector
tool_action CommandAction.get_devices = Action.get_devices
tool_action CommandAction.get_sessions = Action.get_sessions
tool_action CommandAction.remove_session = Action.remove_session
tool_action CommandAction.add_device = Action.add_device
tool_action CommandAction.remove_device = Action.remove_device
tool_action CommandAction.connect_device = Action.connect_device
tool_action CommandAction.disconnect_device = Action.disconnect_device
tool_action CommandAction.start_collecting = Action.start_collecting
tool_action CommandAction.stop_collecting = Action.stop_collecting
tool_action CommandAction.quit = Action.quit

-- One request, for this action.
abbrev pub IsPushed : CommandAction → List Request → Type 0
IsPushed a [] = ⊥
IsPushed a (q ∷ []) = q.action ≡ tool_action a
IsPushed a (q ∷ r ∷ qs) = ⊥

-- The text of --force.
abbrev force_of : CommandLine → Option String
force_of m = if m.force then some "True" else none

-- The commands that carry --id as a device's hash.
abbrev names_device : CommandAction → Bool
names_device CommandAction.get_sessions = true
names_device CommandAction.remove_device = true
names_device CommandAction.connect_device = true
names_device CommandAction.disconnect_device = true
names_device CommandAction.start_collecting = true
names_device CommandAction.stop_collecting = true
names_device _ = false

abbrev adds_device : CommandAction → Bool
adds_device CommandAction.add_device = true
adds_device _ = false

-- The argument that a command takes from the line under each key, if any.
abbrev pub given : CommandLine → CommandAction → Arg → Option String
given m a Arg.forced = elim a [ CommandAction.get_devices ↦ none | _ ↦ force_of m ]
given m a Arg.device_hash = if names_device a then m.unique_id else none
given m a Arg.session_hash = elim a [ CommandAction.remove_session ↦ m.unique_id | _ ↦ none ]
given m a Arg.device_name = if adds_device a then m.device_name else none
given m a Arg.device_address = if adds_device a then m.device_address else none
given m a Arg.device_port = if adds_device a then m.device_port else none
given m a _ = none

-- A command has these arguments and no others.
abbrev HasArgs : CommandLine → CommandAction → Args → Type 0
HasArgs m a args =
    (find Arg.forced args ≡ given m a Arg.forced)
    × (find Arg.device_hash args ≡ given m a Arg.device_hash)
    × (find Arg.session_hash args ≡ given m a Arg.session_hash)
    × (find Arg.device_name args ≡ given m a Arg.device_name)
    × (find Arg.device_address args ≡ given m a Arg.device_address)
    × (find Arg.device_port args ≡ given m a Arg.device_port)
    × (find Arg.id args ≡ given m a Arg.id)
    × (find Arg.request_id args ≡ given m a Arg.request_id)
    × (find Arg.status args ≡ given m a Arg.status)
    × (find Arg.reason args ≡ given m a Arg.reason)
    × (find Arg.what args ≡ given m a Arg.what)

-- One command, for an option that is set, with its arguments and with its request when the session
-- starts.
abbrev pub IsChoice : CommandLine → Tool → List CommandRequest → Type 0
IsChoice m s [] = ⊥
IsChoice m s (r ∷ []) =
    (asks m r.action ≡ true)
    × HasArgs m r.action r.args
    × Returns (λ (_, _, cs). IsPushed r.action (pushed cs)) (on_trigger (r ∷ []) s)
IsChoice m s (r ∷ q ∷ rs) = ⊥

-- A command line that is not refused and does not ask for help makes exactly one command, which is that
-- of an option that is set, and whose arguments are exactly the ones that the line gives for it; and when the session starts, this command
-- becomes exactly one request of the tool's queue, for the same action.
pub commands-IsChoice :
    (m : CommandLine) (s : Tool)
    → refusal m ≡ none
    → m.help ≡ false
    → Returns (IsChoice m s) (commands m)
unfolding refusal conflict missing commands on_trigger push_command
commands-IsChoice m s h k = ground arith

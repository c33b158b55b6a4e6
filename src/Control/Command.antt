-- ===== src/Control/Command.antt =====
-- control/Command.cpp: the callback that hands the tool's commands to its dispatcher.
use tkmcollector.Prelude.{Bool, false, List, [], ◌∷◌}
use tkmcollector.Defaults.{Arg}
use tkmcollector.Defaults.Args.{Args, at, copy_arg, emplace}
use tkmcollector.Run.{◌>>=◌, ◌>>◌, lift, perform, pure}
use tkmcollector.Control.{Action, BulkData, Call, CommandAction, CommandRequest, Request, Step}

abbrev pub plain : Action → Args → Request
plain a args = record { action = a; bulk_data = BulkData.int 0; args = args }

abbrev push : Action → Args → Step (Unit {0})
push a args = perform (Call.push (plain a args))

abbrev forced_args : CommandRequest → Args
forced_args r = copy_arg Arg.forced r.args []

-- A command with one argument that it needs.
abbrev push_hash : Arg → Action → CommandRequest → Step (Unit {0})
push_hash k a r = do v ← lift (at k r.args); push a (emplace k v (forced_args r))

-- The switch.
unfoldable pub push_command : CommandRequest → CommandAction → Step (Unit {0})
push_command r CommandAction.init_database = push Action.init_database (forced_args r)
push_command r CommandAction.quit_collector = push Action.quit_collector (forced_args r)
push_command r CommandAction.get_devices = push Action.get_devices (forced_args r)
push_command r CommandAction.add_device = do
  name ← lift (at Arg.device_name r.args)
  address ← lift (at Arg.device_address r.args)
  port ← lift (at Arg.device_port r.args)
  push Action.add_device (
      emplace Arg.device_port port
        (emplace Arg.device_address address (emplace Arg.device_name name (forced_args r))))
push_command r CommandAction.remove_device = push_hash Arg.device_hash Action.remove_device r
push_command r CommandAction.connect_device = push_hash Arg.device_hash Action.connect_device r
push_command r CommandAction.disconnect_device =
    push_hash Arg.device_hash Action.disconnect_device r
push_command r CommandAction.start_collecting = push_hash Arg.device_hash Action.start_collecting r
push_command r CommandAction.stop_collecting = push_hash Arg.device_hash Action.stop_collecting r
push_command r CommandAction.get_sessions =
    push Action.get_sessions (copy_arg Arg.device_hash r.args (forced_args r))
push_command r CommandAction.remove_session = push_hash Arg.session_hash Action.remove_session r
push_command r CommandAction.quit = push Action.quit []

-- The callback; `false` takes the event out of the loop.
unfoldable pub on_trigger : List CommandRequest → Step Bool
unfolding push_command
on_trigger [] = pure false
on_trigger (r ∷ rs) = do push_command r r.action; on_trigger rs

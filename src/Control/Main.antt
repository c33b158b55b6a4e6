-- ===== src/Control/Main.antt =====
-- `main` of control/Main.cpp: the command line and the commands it asks for. `getopt_long` has read the
-- line: an option is its letter and its argument.
pub mod Refusal
pub mod Choice
pub mod Help
pub mod Launch
use tkmcollector.Prelude.{
  ℕ, String, Bool, true, false, ◌&&◌, ◌||◌, not, Option, none, some, List, [], ◌∷◌, ◌++◌, is_some,
  if◌then◌else◌,
}
use tkmcollector.Outcome.{Outcome, ok, null_pointer, bind}
use tkmcollector.Defaults.{Arg, Val, val_for}
use tkmcollector.Defaults.Args.{Args, emplace}
use tkmcollector.Control.{CommandAction, CommandRequest}

pub record CommandLine : Type 0 where
  pub config_path : Option String
  pub unique_id : Option String
  pub device_name : Option String
  pub device_address : Option String
  pub device_port : Option String
  pub help : Bool
  pub force : Bool
  pub init_database : Bool
  pub quit : Bool
  pub list_devices : Bool
  pub list_sessions : Bool
  pub add_device : Bool
  pub remove_device : Bool
  pub connect_device : Bool
  pub disconnect_device : Bool
  pub remove_session : Bool
  pub start_collecting : Bool
  pub stop_collecting : Bool

abbrev pub empty_line : CommandLine
empty_line = record {
  config_path = none;
  unique_id = none;
  device_name = none;
  device_address = none;
  device_port = none;
  help = false;
  force = false;
  init_database = false;
  quit = false;
  list_devices = false;
  list_sessions = false;
  add_device = false;
  remove_device = false;
  connect_device = false;
  disconnect_device = false;
  remove_session = false;
  start_collecting = false;
  stop_collecting = false;
}

-- The letters of the options; `unknown` is any that getopt_long refuses.
pub data Letter : Type 0 where
  o f i q l j a r c d g s x : Letter
  id name address port h unknown : Letter

-- The body of the loop over the options.
abbrev pub set_option : CommandLine → Letter × Option String → CommandLine
set_option m (Letter.o, v) = record m { config_path = v }
set_option m (Letter.f, v) = record m { force = true }
set_option m (Letter.i, v) = record m { init_database = true }
set_option m (Letter.q, v) = record m { quit = true }
set_option m (Letter.l, v) = record m { list_devices = true }
set_option m (Letter.j, v) = record m { list_sessions = true }
set_option m (Letter.a, v) = record m { add_device = true }
set_option m (Letter.r, v) = record m { remove_device = true }
set_option m (Letter.c, v) = record m { connect_device = true }
set_option m (Letter.d, v) = record m { disconnect_device = true }
set_option m (Letter.g, v) = record m { remove_session = true }
set_option m (Letter.s, v) = record m { start_collecting = true }
set_option m (Letter.x, v) = record m { stop_collecting = true }
set_option m (Letter.id, v) = record m { unique_id = v }
set_option m (Letter.name, v) = record m { device_name = v }
set_option m (Letter.address, v) = record m { device_address = v }
set_option m (Letter.port, v) = record m { device_port = v }
set_option m (Letter.h, v) = record m { help = true }
set_option m (Letter.unknown, v) = record m { help = true }

unfoldable pub read_line : CommandLine → List (Letter × Option String) → CommandLine
read_line m [] = m
read_line m (y ∷ ys) = read_line (set_option m y) ys

-- A text from the command line as an argument.
abbrev put : Arg → Option String → Args → Outcome Args
put k none args = null_pointer
put k (some v) args = ok (emplace k v args)

abbrev put_force : CommandLine → Args → Args
put_force m args = if m.force then emplace Arg.forced (val_for Val.true) args else args

-- The request of an option that is set, before the others.
abbrev with_request :
    Bool
    → CommandAction
    → Outcome Args
    → Outcome (List CommandRequest)
    → Outcome (List CommandRequest)
with_request false action args rest = rest
with_request true action args rest =
    bind args (λ a. bind rest (λ rs. ok (record { action = action; args = a } ∷ rs)))

abbrev with_id : CommandLine → Outcome Args
with_id m = bind (put Arg.device_hash m.unique_id []) (λ a. ok (put_force m a))

abbrev added : CommandLine → Outcome Args
added m = bind (put Arg.device_name m.device_name []) (λ a.
    bind (put Arg.device_address m.device_address a)
      (λ b. bind (put Arg.device_port m.device_port b) (λ c. ok (put_force m c))))

abbrev listed : CommandLine → Outcome Args
listed m = ok (put_force m (elim m.unique_id [ none ↦ [] | some v ↦ emplace Arg.device_hash v [] ]))

-- `addRequest` for each option that is set.
unfoldable pub commands : CommandLine → Outcome (List CommandRequest)
commands m = with_request m.init_database CommandAction.init_database (ok (put_force m [])) (
    with_request m.list_devices CommandAction.get_devices (ok []) (
      with_request m.add_device CommandAction.add_device (added m) (
        with_request m.list_sessions CommandAction.get_sessions (listed m) (
          with_request m.remove_device CommandAction.remove_device (with_id m) (
            with_request m.remove_session CommandAction.remove_session
              (bind (put Arg.session_hash m.unique_id []) (λ a. ok (put_force m a)))
              (with_request m.connect_device CommandAction.connect_device (with_id m) (
                with_request m.disconnect_device CommandAction.disconnect_device (with_id m) (
                  with_request m.start_collecting CommandAction.start_collecting (with_id m) (
                    with_request m.stop_collecting CommandAction.stop_collecting (with_id m) (
                      with_request m.quit CommandAction.quit_collector (ok (put_force m []))
                        (ok [])))))))))))

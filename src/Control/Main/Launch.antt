-- ===== src/Control/Main/Launch.antt =====
-- `main` of control/Main.cpp after the command line was read, with the application that it makes
-- (control/Application.cpp).
use tkmcollector.Prelude.{
  String, Bool, false, ◌⊎◌, inl, inr, ◌≡◌, Option, none, some, List, [], ◌∷◌, ◌&&◌, not,
  if◌then◌else◌,
}
use tkmcollector.Outcome.{runtime_error, throws, ok, null_pointer}
use tkmcollector.Run.{Run, ◌>>=◌, ◌>>◌, call, lift, perform, pure, throw}
use tkmcollector.Options.{Build, Default, Key, Options, default_for, get_for}
use tkmcollector.Application.Main.{Exit}
use tkmcollector.Control.{Action, BulkData, CommandRequest, Request, Tool}
use tkmcollector.Control.Main.{CommandLine, commands}
use tkmcollector.Control.Main.Choice.{IsChoice}
use tkmcollector.Control.Main.Help.{help_text}
use tkmcollector.Control.Main.Refusal.{refusal}

pub data ToolCall : Type 0 where
  print exists' : String → ToolCall
  set_signals enable_events : ToolCall

-- The application with what waits for its first events.
pub record ToolStart : Type 0 where
  pub commands : List CommandRequest
  pub requests : List Request

abbrev connect_request : Request
connect_request = record { action = Action.connect; bulk_data = BulkData.int 0; args = [] }

abbrev config_path : Build → Option String → String
config_path b none = default_for b Default.conf_path
config_path b (some path) = path

module _ {S : Type 0} where
  abbrev print_each : List String → Run ToolCall S (Unit {0})
  print_each [] = pure tt
  print_each (t ∷ ts) = do perform (ToolCall.print t); print_each ts

  -- The constructor of the application.
  unfoldable pub create : (ToolCall → Bool) → Options → Run ToolCall S (Unit {0})
  unfolding get_for
  create env o = do
    found ← call env (ToolCall.exists' (get_for o Key.runtime_directory))
    if found
        then (do
          perform ToolCall.enable_events
          perform ToolCall.enable_events
          perform ToolCall.enable_events)
        else throw (runtime_error "Server runtime directory not available")

  -- The `catch` of every exception; what was called before it is not recorded.
  abbrev caught : Run ToolCall S (Exit ⊎ ToolStart) → Run ToolCall S (Exit ⊎ ToolStart)
  caught m s = elim (m s) [
    | ok r ↦ ok r
    | throws x ↦
        (do perform (ToolCall.print "Application start failed."); pure (inl Exit.failure)) s
    | null_pointer ↦ null_pointer
  ]

  -- Whether the path of the configuration file is there.
  abbrev find_config : (ToolCall → Bool) → Option String → Run ToolCall S Bool
  find_config env none = pure Bool.true
  find_config env (some path) = call env (ToolCall.exists' path)

  -- `load` is the constructor of Options, `library` the version of libtaskmonitor.
  unfoldable pub main :
      Build
      → String
      → (String → Options)
      → (ToolCall → Bool)
      → CommandLine
      → Run ToolCall S (Exit ⊎ ToolStart)
  unfolding create
  main b library load env m = elim (refusal m) [
    | some text ↦ (do perform (ToolCall.print text); pure (inl Exit.failure))
    | none ↦
        if m.help
        then (do print_each (help_text b.version library); pure (inl Exit.success))
        else (do
          perform ToolCall.set_signals
          found ← find_config env m.config_path
          if not found
              then (do
                perform (ToolCall.print "Provided configuration file cannot be accessed")
                pure (inl Exit.failure))
              else caught (do
                create env (load (config_path b m.config_path))
                cs ← lift (commands m)
                pure (inr (record { commands = cs; requests = connect_request ∷ [] }))))
  ]

-- Whether the configuration file is there, if a path is given.
abbrev has_config : (ToolCall → Bool) → Option String → Bool
has_config env none = Bool.true
has_config env (some path) = env (ToolCall.exists' path)

abbrev has_directory : Build → (String → Options) → (ToolCall → Bool) → CommandLine → Bool
has_directory b load env m =
    env (ToolCall.exists' (get_for (load (config_path b m.config_path)) Key.runtime_directory))

-- The line was accepted, and what it needs is there.
abbrev goes_on : Build → (String → Options) → (ToolCall → Bool) → CommandLine → Bool
goes_on b load env m = has_config env m.config_path && has_directory b load env m

-- What a line comes to: success is for an accepted line that asks for help; failure for a refused one,
-- or for one that does not ask for help and lacks its configuration file or the runtime directory; and
-- where the tool goes on, it has one command, with the connection requested first.
abbrev pub IsStarted :
    Build → (String → Options) → (ToolCall → Bool) → CommandLine → Tool → Exit ⊎ ToolStart → Type 0
IsStarted b load env m s (inl Exit.success) = (refusal m ≡ none) × (m.help ≡ Bool.true)
IsStarted b load env m s (inl Exit.failure) =
    refusal m ≡ none → (m.help ≡ false) × (goes_on b load env m ≡ false)
IsStarted b load env m s (inr t) =
    (refusal m ≡ none)
    × (m.help ≡ false)
    × (goes_on b load env m ≡ Bool.true)
    × IsChoice m s t.commands
    × (t.requests ≡ connect_request ∷ [])

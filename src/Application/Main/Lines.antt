-- ===== src/Application/Main/Lines.antt =====
-- What a command line of the collector leads to.
use tkmcollector.Prelude.{
  String, Bool, true, false, ◌≡◌, ◌&&◌, ◌||◌, ◌⊎◌, not, inl, inr, Option, none, some, is_some, List,
  [], ◌∷◌, if◌then◌else◌,
}
use tkmcollector.Outcome.{Ending, Outcome, ok, throws, null_pointer, returns, crashes}
use tkmcollector.Run.{after}
use tkmcollector.Options.{Build, Default, Key, Options, default_for, get_for}
use tkmcollector.Application.Main.{CommandLine, Exit, Flag, Launch, MainCall, is_yes, prepare}

-- The last path that is given.
abbrev pub config_of : Option String → List Flag → Option String
config_of c [] = c
config_of c (Flag.config path ∷ fs) = config_of (some path) fs
config_of c (f ∷ fs) = config_of c fs

abbrev pub has_yes : Bool → List Flag → Bool
has_yes y [] = y
has_yes y (Flag.answer text ∷ fs) = has_yes (if is_yes text then true else y) fs
has_yes y (f ∷ fs) = has_yes y fs

abbrev pub has_daemon : Bool → List Flag → Bool
has_daemon d [] = d
has_daemon d (Flag.daemon ∷ fs) = has_daemon true fs
has_daemon d (f ∷ fs) = has_daemon d fs

abbrev pub has_help : Bool → List Flag → Bool
has_help h [] = h
has_help h (Flag.help ∷ fs) = has_help true fs
has_help h (f ∷ fs) = has_help h fs

-- What the loop over the options collects.
abbrev pub collected : List Flag → CommandLine → CommandLine
collected fs m = record {
  config_path = config_of m.config_path fs;
  is_daemon = has_daemon m.is_daemon fs;
  wants_help = has_help m.wants_help fs;
  erases = has_yes m.erases fs;
}

-- How `prepare` ends: it goes through a null pointer for a daemon without a path.
abbrev prepare_ending : CommandLine → Ending
prepare_ending m =
    if not m.wants_help && (m.is_daemon && not (is_some m.config_path)) then crashes else returns

-- Whether the configuration file is there, if a path is given.
abbrev pub has_config : (MainCall → Bool) → Option String → Bool
has_config env none = true
has_config env (some path) = env (MainCall.exists' path)

-- Whether a daemon's runtime directory is there, or can be made.
abbrev pub is_ready : (String → Options) → (MainCall → Bool) → Option String → Bool
is_ready load env none = false
is_ready load env (some path) =
    let directory = get_for (load path) Key.runtime_directory in
    env (MainCall.exists' directory) || env (MainCall.create_directories directory)

-- Whether the process goes on in the background, as a daemon already or as a child that is set up.
abbrev pub goes_on : (MainCall → Bool) → Bool
goes_on env =
    env MainCall.parent_is_init
    || not (env MainCall.fork_failed)
      && not (env MainCall.is_parent)
      && not (env MainCall.setsid_failed)
      && not (env MainCall.chdir_failed)

-- The parent of a process that goes on.
abbrev pub is_left : (MainCall → Bool) → Bool
is_left env =
    not (env MainCall.parent_is_init) && not (env MainCall.fork_failed) && env MainCall.is_parent

-- When there is an application, and when the process ends with success before. The conditions exclude
-- each other.
abbrev pub launches : (String → Options) → (MainCall → Bool) → CommandLine → Bool
launches load env m =
    not m.wants_help
    && has_config env m.config_path
    && (not m.is_daemon || is_ready load env m.config_path && goes_on env)

abbrev pub succeeds : (String → Options) → (MainCall → Bool) → CommandLine → Bool
succeeds load env m =
    m.wants_help
    || has_config env m.config_path && m.is_daemon && is_ready load env m.config_path && is_left env

-- What a line comes to. What is launched has the path that was given, or the default one, and the
-- erasure that was confirmed.
abbrev pub IsLaunch :
    Build → (String → Options) → (MainCall → Bool) → CommandLine → Exit ⊎ Launch → Type 0
IsLaunch b load env m (inl Exit.success) = succeeds load env m ≡ true
IsLaunch b load env m (inl Exit.failure) =
    (succeeds load env m ≡ false) × (launches load env m ≡ false)
IsLaunch b load env m (inr l) =
    (launches load env m ≡ true)
    × (succeeds load env m ≡ false)
    × (l.config_path ≡ (elim m.config_path [ none ↦ default_for b Default.conf_path | some p ↦ p ]))
    × (l.erases ≡ m.erases)

module _ {S : Type 0} (b : Build) (library : String) (load : String → Options)
    (env : MainCall → Bool) (s : S) where
  -- `prepare` after an outcome of the loop.
  abbrev prepared :
      Outcome (CommandLine × S × List MainCall) → Outcome ((Exit ⊎ Launch) × S × List MainCall)
  prepared o = elim o [
    | ok (m, s', es) ↦ after es (prepare b library load env m s')
    | throws x ↦ throws x
    | null_pointer ↦ null_pointer
  ]

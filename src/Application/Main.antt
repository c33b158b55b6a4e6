-- ===== src/Application/Main.antt =====
-- source/Main.cpp: the command line of the collector, and what `main` does before it makes the
-- application.
pub mod Help
pub mod Lines
use tkmcollector.Prelude.{
  ℕ, String, Bool, true, false, ◌<>◌, ◌||◌, ◌⊎◌, inl, inr, Option, none, some, List, [], ◌∷◌,
  if◌then◌else◌, str_eq, not,
}
use tkmcollector.Run.{Run, ◌>>=◌, ◌>>◌, call, fault, perform, pure}
use tkmcollector.Options.{Build, Default, Key, Options, default_for, get_for}
use tkmcollector.Exec.{Env, ◌>>◌ as ◌then_do◌}
use tkmcollector.Application.Main.Help.{help_text}
use tkmcollector.Application.{Start, Support, start, erase_database}

-- What `getopt_long` gives, one option after the other; with `-e` what the user answers.
pub data Flag : Type 0 where
  config answer : String → Flag
  daemon help other : Flag

pub data MainCall : Type 0 where
  print : String → MainCall
  exists' create_directories : String → MainCall
  parent_is_init fork_failed is_parent setsid_failed chdir_failed : MainCall
  null_opened null_above_two dup2_null close_null : MainCall
  -- With the mask's octal digits.
  umask : ℕ → MainCall
  pidfile_opened : String → MainCall
  pid_written close_pidfile : MainCall
  set_signals : MainCall

-- How the process ends before there is an application.
pub data Exit : Type 0 where
  success failure : Exit

pub record CommandLine : Type 0 where
  pub config_path : Option String
  pub is_daemon : Bool
  pub wants_help : Bool
  pub erases : Bool

abbrev pub no_flags : CommandLine
no_flags = record { config_path = none; is_daemon = false; wants_help = false; erases = false }

abbrev pub is_yes : String → Bool
is_yes text = str_eq text "yes" || str_eq text "Yes" || str_eq text "YES"

module _ {S : Type 0} where
  abbrev print_each : List String → Run MainCall S (Unit {0})
  print_each [] = pure tt
  print_each (t ∷ ts) = do perform (MainCall.print t); print_each ts

  -- The loop over the options.
  unfoldable pub read_flags : List Flag → CommandLine → Run MainCall S CommandLine
  read_flags [] m = pure m
  read_flags (Flag.config path ∷ fs) m = read_flags fs (record m { config_path = some path })
  read_flags (Flag.answer text ∷ fs) m = do
    perform
        (MainCall.print "Are you sure you want to erase the current database? (cannot be undone): ")
    if is_yes text then pure tt else perform (MainCall.print "Ignoring erase database request")
    read_flags fs (if is_yes text then record m { erases = true } else m)
  read_flags (Flag.daemon ∷ fs) m = read_flags fs (record m { is_daemon = true })
  read_flags (Flag.help ∷ fs) m = read_flags fs (record m { wants_help = true })
  read_flags (Flag.other ∷ fs) m = read_flags fs m

  -- The process that goes on, or how the others end.
  unfoldable pub daemonize : (MainCall → Bool) → Run MainCall S (Option Exit)
  daemonize env = do
    is_daemon ← call env MainCall.parent_is_init
    if is_daemon then pure none else do
      failed ← call env MainCall.fork_failed
      if failed
          then (do
            perform (MainCall.print "ERROR: Cannot fork on daemonize")
            pure (some Exit.failure))
          else do
            parent ← call env MainCall.is_parent
            if parent then pure (some Exit.success) else do
              no_session ← call env MainCall.setsid_failed
              if no_session
                  then (do
                    perform (MainCall.print "ERROR: Cannot setsid on daemonize")
                    pure (some Exit.failure))
                  else do
                    no_root ← call env MainCall.chdir_failed
                    if no_root
                        then (do
                          perform (MainCall.print "ERROR: Cannot chdir on daemonize")
                          pure (some Exit.failure))
                        else do
                          opened ← call env MainCall.null_opened
                          if opened
                              then (do
                                perform MainCall.dup2_null
                                above ← call env MainCall.null_above_two
                                if above then perform MainCall.close_null else pure tt)
                              else pure tt
                          perform (MainCall.umask 27)
                          pure none

  -- The result is not read.
  unfoldable pub create_pidfile : (MainCall → Bool) → String → Run MainCall S Bool
  create_pidfile env path = do
    opened ← call env (MainCall.pidfile_opened path)
    if not opened then pure false else do
      written ← call env MainCall.pid_written
      perform MainCall.close_pidfile
      pure written

-- The arguments of the application.
pub record Launch : Type 0 where
  pub config_path : String
  pub erases : Bool

abbrev launch_from : Build → CommandLine → Launch
launch_from b m = record {
  config_path = elim m.config_path [ none ↦ default_for b Default.conf_path | some p ↦ p ];
  erases = m.erases;
}

-- `library` is the version of libtaskmonitor, and `load` the constructor of Options.
module _ {S : Type 0} (b : Build) (library : String) (load : String → Options)
    (env : MainCall → Bool) where
  -- With `--daemon`: the options are made of the path of `--config`, without one of a null pointer.
  unfoldable pub become_daemon : CommandLine → Run MainCall S (Option Exit)
  unfolding daemonize create_pidfile get_for
  become_daemon m = elim m.config_path [
    | none ↦ fault
    | some path ↦ (do
      let directory = get_for (load path) Key.runtime_directory
      found ← call env (MainCall.exists' directory)
      ready ← if found then pure true else call env (MainCall.create_directories directory)
      if not ready
          then (do
            perform (MainCall.print "ERROR: Cannot create runtime directory")
            pure (some Exit.failure))
          else do
            ended ← daemonize env
            elim ended [
              | some e ↦ pure (some e)
              | none ↦ (do
                perform (MainCall.print ("PID file: " <> (directory <> "/tkmcollector.pid")))
                create_pidfile env (directory <> "/tkmcollector.pid")
                pure none)
            ])
  ]

  -- Whether the path of `--config` is there.
  abbrev find_config : Option String → Run MainCall S Bool
  find_config none = pure true
  find_config (some path) = call env (MainCall.exists' path)

  -- `main` up to the application, after the options are read.
  unfoldable pub prepare : CommandLine → Run MainCall S (Exit ⊎ Launch)
  unfolding become_daemon
  prepare m =
      if m.wants_help
      then (do print_each (help_text b.version library); pure (inl Exit.success))
      else (do
        found ← find_config m.config_path
        if not found
            then (do
              perform (MainCall.print "Provided configuration file cannot be accessed")
              pure (inl Exit.failure))
            else do
              ended ← if m.is_daemon then become_daemon m else pure none
              elim ended [
                | some e ↦ pure (inl e)
                | none ↦ (do perform MainCall.set_signals; pure (inr (launch_from b m)))
              ])

  unfoldable pub main : List Flag → Run MainCall S (Exit ⊎ Launch)
  unfolding read_flags prepare
  main fs = do m ← read_flags fs no_flags; prepare m

-- The rest of `main`, before the event loop runs.
unfoldable pub launch : Env → Support → (String → Options) → Launch → Start (Unit {0})
unfolding start erase_database
launch env w load l = start env w (load l.config_path) then_do erase_database l.erases

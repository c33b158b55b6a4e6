-- ===== src/Application.antt =====
-- source/Application.cpp and the end of `main` in source/Main.cpp: the set-up of the collector. Opening a
-- database and starting the server are calls that say whether they threw.
pub mod Startup
pub mod Main
use tkmcollector.Prelude.{
  String, Bool, true, not, Option, none, some, [], ◌∷◌, if◌then◌else◌, is_some, str_eq,
}
use tkmcollector.Outcome.{runtime_error}
use tkmcollector.Defaults.{Arg, Val, val_for}
use tkmcollector.Requests.{DatabaseAction, DispatcherAction, Request, plain_request}
use tkmcollector.Exec.{
  Env, Exec, Effect, ◌>>=◌, ◌>>◌, call, fault, gets, modify, perform, pure, throw,
}
use tkmcollector.DeviceManager.{load_devices, clean_sessions}
use tkmcollector.Options.{Key, Options, get_for}
use tkmcollector.Query.Schema.{Backend}

-- WITH_SQLITE3 and WITH_POSTGRESQL
pub record Support : Type 0 where
  pub sqlite3 : Bool
  pub postgresql : Bool

-- `m_database`
abbrev pub Start : Type 0 → Type 0
Start = Exec (Option Backend)

abbrev quit : Start (Unit {0})
quit = perform (Effect.push_dispatcher (plain_request DispatcherAction.quit))

-- The database is made, and its enableEvents has it checked.
abbrev open_database : Env → Backend → Start (Unit {0})
open_database env b = do
  opened ← call env (Effect.open_database b)
  if opened
      then (do
        modify (λ _. some b)
        perform (Effect.push_database (plain_request DatabaseAction.check_database)))
      else quit

-- A database that was not built in is left out: the static_assert of its branch always holds.
unfoldable pub use_database : Env → Support → String → Start (Unit {0})
use_database env w type =
    if str_eq type "sqlite3"
    then if w.sqlite3 then open_database env Backend.sqlite3 else pure tt
    else if w.postgresql
    then open_database env Backend.postgresql
    else pure tt

-- The constructor of the application.
unfoldable pub start : Env → Support → Options → Start (Unit {0})
unfolding use_database get_for load_devices clean_sessions
start env w o = do
  exists' ← call env (Effect.directory_exists (get_for o Key.runtime_directory))
  ready ←
      if exists'
      then pure true
      else call env (Effect.create_directories (get_for o Key.runtime_directory))
  if not ready then throw (runtime_error "Fail to create runtime directory") else do
    use_database env w (get_for o Key.database_type)
    started ← call env Effect.start_server
    if started then pure tt else quit
    db ← gets (λ db. db)
    if is_some db then (do load_devices env; clean_sessions env; pure tt) else pure tt

abbrev pub forced_init : Request DatabaseAction
forced_init = record (plain_request DatabaseAction.init_database) {
  args = (Arg.forced, val_for Val.true) ∷ [];
}

-- The request that `main` adds where the database is to be erased.
unfoldable pub erase_database : Bool → Start (Unit {0})
erase_database erase =
    if erase
    then (do
      db ← gets (λ db. db)
      elim db [ none ↦ fault | some b ↦ perform (Effect.push_database forced_init) ])
    else pure tt

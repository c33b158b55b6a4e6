-- ===== src/Application/Startup.antt =====
-- What the collector asks of its database and of itself before the first event.
use tkmcollector.Prelude.{
  String, Bool, true, false, Option, none, some, List, [], ◌∷◌, ◌||◌, if◌then◌else◌, str_eq,
}
use tkmcollector.Requests.{DatabaseAction, DispatcherAction, Request, plain_request}
use tkmcollector.Exec.{Effect, Env}
use tkmcollector.DeviceManager.{load_devices, clean_sessions}
use tkmcollector.Options.{Key, Options, get_for}
use tkmcollector.Query.Schema.{Backend}
use tkmcollector.Application.{Support, forced_init}

module _ (env : Env) (w : Support) (o : Options) where
  abbrev type : String
  type = get_for o Key.database_type

  -- The backend that is configured and built in.
  abbrev pub configured : Option Backend
  configured =
      if str_eq type "sqlite3"
      then if w.sqlite3 then some Backend.sqlite3 else none
      else if w.postgresql
      then some Backend.postgresql
      else none

  abbrev opens : Option Backend → Bool
  opens none = false
  opens (some b) = env (Effect.open_database b)

  -- The runtime directory is there or can be made.
  abbrev pub has_directory : Bool
  has_directory =
      env (Effect.directory_exists (get_for o Key.runtime_directory))
      || env (Effect.create_directories (get_for o Key.runtime_directory))

  abbrev pub startup_requests : Bool → Bool → List (Request DatabaseAction)
  startup_requests false erase = []
  startup_requests true erase =
      plain_request DatabaseAction.check_database
      ∷ plain_request DatabaseAction.load_devices
      ∷ plain_request DatabaseAction.clean_sessions
      ∷ (if erase then forced_init ∷ [] else [])

  abbrev quits : Bool → List (Request DispatcherAction)
  quits true = plain_request DispatcherAction.quit ∷ []
  quits false = []

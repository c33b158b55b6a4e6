-- ===== src/Options.antt =====
-- shared/Options.cpp and the table of defaults of shared/Defaults.h.in. What `bswi::kf::KeyFile` finds
-- for a section and a property, in any section of that name, is a parameter.
pub mod Settings
use tkmcollector.Prelude.{String, Option, none, some}

-- Defaults::Default
pub data Default : Type 0 where
  version conf_path database_type runtime_directory db_name db_user_name : Default
  db_user_password db_server_address db_server_port db_file_path control_socket : Default

-- What the build puts into the table.
pub record Build : Type 0 where
  pub version : String
  pub conf_path : String

abbrev pub default_for : Build → Default → String
default_for b Default.version = b.version
default_for b Default.conf_path = b.conf_path
default_for b Default.runtime_directory = "/var/run/tkmcollector"
default_for b Default.database_type = "pqsql"
default_for b Default.db_name = "taskmonitor"
default_for b Default.db_user_name = "tkmcollector"
default_for b Default.db_user_password = "tkmcollector123"
default_for b Default.db_server_address = "localhost"
default_for b Default.db_server_port = "5432"
default_for b Default.db_file_path = "/var/cache/tkmcollector/data.db"
default_for b Default.control_socket = ".tkm-control.sock"

-- Options::Key
pub data Key : Type 0 where
  database_type runtime_directory db_name db_user_name : Key
  db_user_password db_server_address db_server_port db_file_path : Key

-- `getPropertyValue(section, -1, property)`
abbrev pub KeyFile : Type 0
KeyFile = String → String → Option String

-- The configuration file, unless it could not be parsed.
pub record Options : Type 0 where
  pub build : Build
  pub config_file : Option KeyFile

abbrev value_or : String → Option String → String
value_or d none = d
value_or d (some v) = v

abbrev setting : Options → String → String → Default → String
setting o section property d = elim o.config_file [
  | none ↦ default_for o.build d
  | some f ↦ value_or (default_for o.build d) (f section property)
]

unfoldable pub get_for : Options → Key → String
get_for o Key.db_name = setting o "database" "DatabaseName" Default.db_name
get_for o Key.db_user_name = setting o "database" "UserName" Default.db_user_name
get_for o Key.db_user_password = setting o "database" "UserPassword" Default.db_user_password
get_for o Key.db_server_address = setting o "database" "ServerAddress" Default.db_server_address
get_for o Key.db_server_port = setting o "database" "ServerPort" Default.db_server_port
get_for o Key.db_file_path = setting o "database" "DatabasePath" Default.db_file_path
get_for o Key.runtime_directory = setting o "general" "RuntimeDirectory" Default.runtime_directory
get_for o Key.database_type = setting o "general" "DatabaseType" Default.database_type

-- ===== src/Options/Settings.antt =====
-- What a line of the configuration file changes.
use tkmcollector.Prelude.{ℕ, String, Bool, ◌&&◌, ◌≡◌, some, arith, if◌then◌else◌, str_eq, nat_eq}
use tkmcollector.Options.{Build, Key, KeyFile, Options, get_for}

-- Where config/tkmcollector.conf.in has a key: its section and its property.
abbrev pub name_of : Key → String × String
name_of Key.database_type = ("general", "DatabaseType")
name_of Key.runtime_directory = ("general", "RuntimeDirectory")
name_of Key.db_name = ("database", "DatabaseName")
name_of Key.db_user_name = ("database", "UserName")
name_of Key.db_user_password = ("database", "UserPassword")
name_of Key.db_server_address = ("database", "ServerAddress")
name_of Key.db_server_port = ("database", "ServerPort")
name_of Key.db_file_path = ("database", "DatabasePath")

abbrev rank : Key → ℕ
rank Key.database_type = 0
rank Key.runtime_directory = 1
rank Key.db_name = 2
rank Key.db_user_name = 3
rank Key.db_user_password = 4
rank Key.db_server_address = 5
rank Key.db_server_port = 6
rank Key.db_file_path = 7

abbrev pub key_eq : Key → Key → Bool
key_eq j k = nat_eq (rank j) (rank k)

-- The file with one more line, which a reader finds before the others.
abbrev pub with_line : String × String → String → KeyFile → KeyFile
with_line (section, property) value f s p =
    if str_eq s section && str_eq p property then some value else f s p

abbrev pub configured : Build → KeyFile → Options
configured b f = record { build = b; config_file = some f }

-- A line that sets the property of a key in that key's section is what the key reads, and no other
-- key reads it.
pub get_for-with_line :
    (b : Build) (f : KeyFile) (k j : Key) (value : String)
    → get_for (configured b (with_line (name_of k) value f)) j
      ≡ (if key_eq j k then value else get_for (configured b f) j)
unfolding get_for
get_for-with_line b f Key.database_type j value = ground arith
get_for-with_line b f Key.runtime_directory j value = ground arith
get_for-with_line b f Key.db_name j value = ground arith
get_for-with_line b f Key.db_user_name j value = ground arith
get_for-with_line b f Key.db_user_password j value = ground arith
get_for-with_line b f Key.db_server_address j value = ground arith
get_for-with_line b f Key.db_server_port j value = ground arith
get_for-with_line b f Key.db_file_path j value = ground arith

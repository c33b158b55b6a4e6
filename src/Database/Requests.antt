-- ===== src/Database/Requests.antt =====
-- What the database's handlers need of a request, whichever database runs: who asks, and with which data.
use tkmcollector.Prelude.{Bool, true, false, Option, none, some, if◌then◌else◌}
use tkmcollector.Outcome.{Ending, returns, raises, crashes}
use tkmcollector.Defaults.{Arg}
use tkmcollector.Defaults.Args.{Args, count}
use tkmcollector.Requests.{BulkData, Client, DatabaseAction}

abbrev pub when : Bool → Ending
when ok' = if ok' then returns else raises

-- Data of a type, for a client.
abbrev pub is_device : BulkData → Bool
is_device (BulkData.device_data d) = true
is_device _ = false

abbrev is_session : BulkData → Bool
is_session (BulkData.session_data d) = true
is_session _ = false

abbrev pub is_info : BulkData → Bool
is_info (BulkData.session_info d) = true
is_info _ = false

abbrev pub is_monitor_data : BulkData → Bool
is_monitor_data (BulkData.monitor_data d) = true
is_monitor_data _ = false

abbrev for_client : Option Client → Bool → Ending
for_client none ok' = crashes
for_client (some c) ok' = when ok'

abbrev with_args : Bool → Bool → Ending
with_args false given = raises
with_args true given = when given

abbrev pub expected : DatabaseAction → Option Client → BulkData → Args → Ending
expected DatabaseAction.get_devices c b args = for_client c true
expected DatabaseAction.add_device c b args = for_client c (is_device b)
expected DatabaseAction.remove_device c b args = for_client c (is_device b)
expected DatabaseAction.get_sessions c b args = for_client c (is_device b)
expected DatabaseAction.rem_session c b args = for_client c (is_session b)
expected DatabaseAction.add_session c b args = with_args (is_info b) (count Arg.device_hash args)
expected DatabaseAction.end_session c b args = when (count Arg.session_hash args)
expected DatabaseAction.add_data c b args =
    with_args (is_monitor_data b) (count Arg.session_hash args)
expected _ c b args = returns

-- The actions that the dispatcher passes on for a client, with the data that their handlers read.
abbrev pub IsClientRequest : DatabaseAction → BulkData → Type 0
IsClientRequest DatabaseAction.init_database b = Unit {0}
IsClientRequest DatabaseAction.get_devices b = Unit {0}
IsClientRequest DatabaseAction.add_device (BulkData.device_data d) = Unit {0}
IsClientRequest DatabaseAction.remove_device (BulkData.device_data d) = Unit {0}
IsClientRequest DatabaseAction.get_sessions (BulkData.device_data d) = Unit {0}
IsClientRequest DatabaseAction.rem_session (BulkData.session_data d) = Unit {0}
IsClientRequest _ b = ⊥

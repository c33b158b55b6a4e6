-- ===== src/Control/Main/Refusal.antt =====
-- The checks of the command line in `main` of control/Main.cpp.
use tkmcollector.Prelude.{String, Bool, ◌&&◌, ◌||◌, not, Option, none, some, is_some, if◌then◌else◌}
use tkmcollector.Control.Main.{CommandLine}

-- Whether any of the options is set, in the groups that the checks name.
abbrev collects : CommandLine → Bool
collects m = m.start_collecting || m.stop_collecting

abbrev connects : CommandLine → Bool
connects m = m.connect_device || m.disconnect_device

abbrev lists : CommandLine → Bool
lists m = m.list_devices || m.list_sessions

-- The checks of the top level options, in their order, with the text of the first that fails.
unfoldable pub conflict : CommandLine → Option String
conflict m =
    if not m.add_device
      && not m.remove_device
      && not (connects m)
      && not (collects m)
      && not m.init_database
      && not m.quit
      && not (lists m)
      && not m.remove_session
      && not m.help
    then some "Please select one top level option"
    else if m.add_device
        && (m.remove_device || connects m || collects m || m.init_database || m.quit || lists m)
    then some "Add device option cannot be used with other top level options"
    else if m.remove_device
        && (m.add_device
            || connects m
            || collects m
            || m.init_database
            || m.quit
            || lists m
            || m.remove_session)
    then some "Remove device option cannot be used with other top level options"
    else if m.connect_device
        && (m.add_device
            || m.remove_device
            || m.disconnect_device
            || collects m
            || m.init_database
            || m.quit
            || lists m
            || m.remove_session)
    then some "Connect device option cannot be used with other top level options"
    else if m.disconnect_device
        && (m.add_device
            || m.remove_device
            || m.connect_device
            || collects m
            || m.init_database
            || m.quit
            || lists m
            || m.remove_session)
    then some "Disconnect device option cannot be used with other top level options"
    else if m.start_collecting
        && (m.add_device
            || m.remove_device
            || connects m
            || m.stop_collecting
            || m.init_database
            || m.quit
            || lists m
            || m.remove_session)
    then some "Start connecting option cannot be used with other top level options"
    else if m.stop_collecting
        && (m.add_device
            || m.remove_device
            || connects m
            || m.start_collecting
            || m.init_database
            || m.quit
            || lists m
            || m.remove_session)
    then some "Start connecting option cannot be used with other top level options"
    else if m.init_database
        && (m.add_device
            || m.remove_device
            || connects m
            || collects m
            || m.quit
            || lists m
            || m.remove_session)
    then some "Stop connecting option cannot be used with other top level options"
    else if m.quit
        && (m.add_device
            || m.remove_device
            || connects m
            || collects m
            || m.init_database
            || lists m
            || m.remove_session)
    then some "Quit collector option cannot be used with other top level options"
    else if m.list_devices
        && (m.add_device
            || m.remove_device
            || connects m
            || collects m
            || m.init_database
            || m.quit
            || m.list_sessions
            || m.remove_session)
    then some "List devices option cannot be used with other top level options"
    else if m.list_sessions
        && (m.add_device
            || m.remove_device
            || connects m
            || collects m
            || m.init_database
            || m.quit
            || m.list_devices
            || m.remove_session)
    then some "List sessions option cannot be used with other top level options"
    else if m.remove_session
        && (m.add_device
            || m.remove_device
            || connects m
            || collects m
            || m.init_database
            || m.quit
            || lists m)
    then some "List sessions option cannot be used with other top level options"
    else none

-- The checks of what an option needs.
unfoldable pub missing : CommandLine → Option String
missing m =
    if m.quit && not m.force
    then some "Quit collector can only be used with force option"
    else if m.add_device
        && not (is_some m.device_name && is_some m.device_address && is_some m.device_port)
    then some "Please provide the complete device data"
    else if (m.remove_device || connects m || collects m) && not (is_some m.unique_id)
    then some "Please provide the device hash id"
    else if m.remove_session && not (is_some m.unique_id)
    then some "Please provide the device hash id"
    else none

-- `exit(EXIT_FAILURE)` with this text.
unfoldable pub refusal : CommandLine → Option String
unfolding conflict missing
refusal m = elim (conflict m) [ some t ↦ some t | none ↦ missing m ]

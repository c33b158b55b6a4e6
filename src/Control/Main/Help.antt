-- ===== src/Control/Main/Help.antt =====
-- The help text of control/Main.cpp, with the versions of the program and of libtaskmonitor.
use tkmcollector.Prelude.{String, ◌<>◌, List, [], ◌∷◌}

abbrev pub help_text : String → String → List String
help_text version library =
    ("TaskMonitorCollector-Control: TaskMonitor collector control utility\nVersion: "
      <> (version <> (" libtkm: " <> (library <> "\n\n"))))
    ∷ "Usage: tkmcontrol [OPTIONS] \n\n"
    ∷ "  General:\n"
    ∷ "     --config, -o              <string>  Configuration file path\n"
    ∷ "     --force, -f               <noarg>   Force actions\n"
    ∷ "     --quit, -q                <noarg>   Ask tkm-collector to terminate\n"
    ∷ "  Database:\n"
    ∷ "     --initDatabase, -i        <noarg>   Initialize database\n"
    ∷ "  Devices:\n"
    ∷ "     --listDevices, -l         <noarg>   Get list of devices from database\n"
    ∷ "     --listSessions, -j        <noarg>   Get list of sessions for device\n"
    ∷ "        Optional:\n"
    ∷ "         --Id, -I              <string>  Device ID\n"
    ∷ "     --addDevice,  -a          <noarg>   Add a new device to the database\n"
    ∷ "        Require:\n"
    ∷ "         --Name, -N            <string>  Device name\n"
    ∷ "         --Address, -A         <string>  Device IP address\n"
    ∷ "         --Port, -P            <int>     Device port number\n"
    ∷ "     --remDevice,  -r          <noarg>   Remove user from database\n"
    ∷ "        Require:\n"
    ∷ "         --Id, -I              <string>  Device ID\n"
    ∷ "     --remSession, -g          <noarg>   Remove session from database\n"
    ∷ "        Require:\n"
    ∷ "         --Id, -I              <string>  Session ID\n"
    ∷ "     --connect, -c             <noarg>   Connect device to taskmonitor\n"
    ∷ "       Require:\n"
    ∷ "         --Id, -I              <string>  Device ID\n"
    ∷ "     --disconnect, -d          <noarg>   Disconnect device from taskmonitor\n"
    ∷ "       Require:\n"
    ∷ "         --Id, -I              <string>  Device ID\n"
    ∷ "     --startCollecting, -s     <noarg>   Start collecting data from device\n"
    ∷ "       Require:\n"
    ∷ "         --Id, -I              <string>  Device ID\n"
    ∷ "     --stopCollecting, -x      <noarg>   Stop collecting data from device\n"
    ∷ "       Require:\n"
    ∷ "         --Id, -I              <string>  Device ID\n"
    ∷ "  Help:\n"
    ∷ "     --help, -h                          Print this help\n\n"
    ∷ []

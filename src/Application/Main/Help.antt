-- ===== src/Application/Main/Help.antt =====
-- The help text of source/Main.cpp, with the versions of the program and of libtaskmonitor.
use tkmcollector.Prelude.{String, ◌<>◌, List, [], ◌∷◌}

abbrev pub help_text : String → String → List String
help_text version library =
    ("TaskMonitorCollector: TaskMonior collector\nVersion: "
      <> (version <> (" libtkm: " <> (library <> "\n\n"))))
    ∷ "Usage: tkmcollector [OPTIONS] \n\n"
    ∷ "  General:\n"
    ∷ "     --config, -c             <string> Configuration file path\n"
    ∷ "     --daemon, -d             <noarg>  Daemonize\n"
    ∷ "     --eraseDatabase, -e      <noarg>  Reinitialize database\n"
    ∷ "  Help:\n"
    ∷ "     --help, -h                 Print this help\n\n"
    ∷ []

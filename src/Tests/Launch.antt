-- ===== src/Tests/Launch.antt =====
-- The theorems on the server and on the collector's command line at concrete inputs.
use tkmcollector.Prelude.{◌≡◌, Bool, true, false, List, [], ◌∷◌, arith}
use tkmcollector.Outcome.{ending, returns}
use tkmcollector.Bytes.{length}
use tkmcollector.Helpers.{send_control_descriptor}
use tkmcollector.Application.Main.{Flag, MainCall, main}
use tkmcollector.Server.{ServerCall, UdsServer, start}
use tkmcollector.Server.Clients.{IsTaken, Started, send_control_descriptor-IsTaken, start_ends}
use tkmcollector.Control.Main.Launch.{ToolCall, main as tool_main}
use tkmcollector.Tests.Tool.{byte_codec, byte_codec-IsCodec, unset}

abbrev server : UdsServer
server = record { sock_fd = 3; prepared = false }

send_control_descriptor-IsTaken_example :
    IsTaken byte_codec 7 server (1 ∷ []) (send_control_descriptor byte_codec 42)
unfolding length
send_control_descriptor-IsTaken_example =
    send_control_descriptor-IsTaken byte_codec 42 7 server (1 ∷ []) byte_codec-IsCodec
      (ground arith)

abbrev all_well : ServerCall → Bool
all_well c = true

start_ends_example :
    (ending (start all_well unset server) ≡ returns)
    × Started all_well unset server (start all_well unset server)
start_ends_example = start_ends all_well unset server

-- `tkmcollector -e -d -c /etc/tkm.conf`, with the answer Yes.
abbrev flags : List Flag
flags = Flag.answer "Yes" ∷ Flag.daemon ∷ Flag.config "/etc/tkm.conf" ∷ []

abbrev agreeing : MainCall → Bool
agreeing c = true

abbrev finding : ToolCall → Bool
finding c = true

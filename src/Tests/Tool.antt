-- ===== src/Tests/Tool.antt =====
-- The theorems on the control tool, its descriptor, the options and the start at concrete inputs.
use tkmcollector.Prelude.{ℕ, String, ◌≡◌, refl, true, false, none, some, [], ◌∷◌, arith}
use tkmcollector.Outcome.{Returns}
use tkmcollector.Defaults.{Arg}
use tkmcollector.Messages.{Recipient, StatusWhat, no_device, no_session}
use tkmcollector.Requests.{DispatcherAction}
use tkmcollector.Exec.ReadLoop.{ReadEnd}
use tkmcollector.Exec.Trace.{dispatcher_requests}
use tkmcollector.ControlClient as Client
use tkmcollector.Options.{Build, KeyFile, Options}
use tkmcollector.Bytes.{length}
use tkmcollector.Helpers.{Codec, send_control_descriptor}
use tkmcollector.Helpers.Descriptor.{IsCodec, IsReadBack, send_control_descriptor-IsReadBack}
use tkmcollector.Application.{Support}
use tkmcollector.Control.{Action, Answers, CollectorStatus, Packed, Request, Tool}
use tkmcollector.Control.Command.{plain}
use tkmcollector.Control.Connection.{Incoming, MessageType, Unpack, on_readable}
use tkmcollector.Control.Dispatcher.{request_handler}
use tkmcollector.Control.Dispatcher.Ends.{on_readable-quits, status_request}
use tkmcollector.Control.Dispatcher.Heard.{IsUnpack, device, request_handler-heard}
use tkmcollector.Control.Main.{CommandLine, empty_line}
use tkmcollector.Control.Trace.{pushed, sent}
use tkmcollector.Tests.Fixtures.{willing}

abbrev pub build : Build
build = record { version = "1.0"; conf_path = "/etc/tkmcollector.conf" }

abbrev pub unset : Options
unset = record { build = build; config_file = none }

abbrev empty_file : KeyFile
empty_file s p = none

abbrev pub at_start : Tool
at_start = record { session = ""; is_polled = true }

-- `tkmcontrol -s -I d1`
abbrev pub starting : CommandLine
starting = record empty_line { start_collecting = true; unique_id = some "d1" }

abbrev agreeing : Answers
agreeing c = true

abbrev text_number : String → ℕ
text_number t = 7

-- Unpacking where the type of the message is the one that was packed.
abbrev unpack_packed : Client.Unpack Packed
unpack_packed = record {
  device_data = λ x. elim x [ Packed.device_data d ↦ d | _ ↦ no_device ];
  session_data = λ x. elim x [ Packed.session_data s ↦ s | _ ↦ no_session ];
  session_id = λ x. elim x [ Packed.session_info i ↦ i | _ ↦ "" ];
}

abbrev unpack_packed-IsUnpack : IsUnpack unpack_packed
unpack_packed-IsUnpack = record { device_data = λ d. refl; session_data = λ s. refl }

abbrev of_start : Request
of_start = plain Action.start_collecting ((Arg.device_hash, "d1") ∷ [])

request_handler-heard_example :
    Returns
      (λ (_, _, cs).
        Returns
          (λ (_, _, es).
            dispatcher_requests es
            ≡ record {
              client = some 7;
              action = DispatcherAction.start_collecting;
              args = (Arg.request_id, "StartCollecting") ∷ [];
              bulk_data = device "d1";
            }
              ∷ [])
          (Client.on_readable unpack_packed willing 7 (sent cs) ReadEnd.again tt))
      (request_handler agreeing unset text_number of_start at_start)
request_handler-heard_example =
    request_handler-heard unpack_packed unpack_packed-IsUnpack unset text_number agreeing willing 7
      of_start (device "d1") at_start tt ("d1", refl, refl)

abbrev busy : CollectorStatus
busy = record { request_id = "StartCollecting"; what = StatusWhat.busy; reason = "Collecting" }

abbrev unpack_busy : Unpack (Unit {0})
unpack_busy = record {
  session_info = λ _. "";
  status = λ _. busy;
  device_list = λ _. [];
  session_list = λ _. [];
}

abbrev message : Incoming (Unit {0})
message = record { origin = Recipient.collector; type = MessageType.status; payload = tt }

on_readable-quits_example :
    Returns
      (λ (b, s', cs).
        (b ≡ true)
        × (pushed cs ≡ status_request unpack_busy tt ∷ [])
        × Returns
            (λ (_, _, ds). pushed ds ≡ plain Action.quit [] ∷ [])
            (request_handler agreeing unset text_number (status_request unpack_busy tt) s'))
      (on_readable unpack_busy (message ∷ []) ReadEnd.again at_start)
on_readable-quits_example =
    on_readable-quits unpack_busy agreeing unset text_number at_start message refl refl refl

-- A number as one byte, and a descriptor as its number.
abbrev pub byte_codec : Codec
byte_codec = record {
  envelope = λ pid. pid ∷ [];
  varint = λ n. n ∷ [];
  read_varint = λ xs. elim xs [ [] ↦ (0, []) | n ∷ rest ↦ (n, rest) ];
  parse = λ xs. elim xs [ [] ↦ none | n ∷ rest ↦ some n ];
}

pub byte_codec-IsCodec : IsCodec byte_codec
unfolding length
byte_codec-IsCodec = record {
  read_back = λ n rest. refl;
  short = λ n. ground arith;
  parses = λ pid. refl;
}

send_control_descriptor-IsReadBack_example :
    IsReadBack byte_codec 42 (1 ∷ []) (send_control_descriptor byte_codec 42)
unfolding length
send_control_descriptor-IsReadBack_example =
    send_control_descriptor-IsReadBack byte_codec 42 (1 ∷ []) byte_codec-IsCodec (ground arith)

abbrev pub both : Support
both = record { sqlite3 = true; postgresql = true }

abbrev sqlite_only : Support
sqlite_only = record { sqlite3 = true; postgresql = false }

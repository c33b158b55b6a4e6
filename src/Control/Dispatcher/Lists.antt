-- ===== src/Control/Dispatcher/Lists.antt =====
-- What the tool prints of a list from the collector: doDeviceList and doSessionList of
-- control/Dispatcher.cpp. A line ends with a line feed.
use tkmcollector.Prelude.{String, ◌<>◌, Bool, true, List, [], ◌∷◌}
use tkmcollector.Outcome.{Outcome, ok, throws, bad_any_cast}
use tkmcollector.Number.{int_to_string, to_string}
use tkmcollector.Messages.{DeviceData, DeviceState, SessionData, SessionState}
use tkmcollector.Run.{◌>>=◌, ◌>>◌, lift, perform, pure}
use tkmcollector.Control.{BulkData, Call, Request, Step}

abbrev pub rule : String
rule = "--------------------------------------------------\n"

abbrev device_state_text : DeviceState → String
device_state_text DeviceState.loaded = "Loaded"
device_state_text DeviceState.connected = "Connected"
device_state_text DeviceState.disconnected = "Disconnected"
device_state_text DeviceState.reconnecting = "Reconnecting"
device_state_text DeviceState.collecting = "Collecting"
device_state_text DeviceState.idle = "Idle"
device_state_text _ = "Unknown"

-- The lines of a device.
unfoldable pub device_text : DeviceData → String
device_text d =
    "Id\t: "
    <> d.hash
    <> "\nName\t: "
    <> d.name
    <> "\nAddress\t: "
    <> d.address
    <> "\nPort\t: "
    <> int_to_string d.port
    <> "\nState\t: "
    <> device_state_text d.state
    <> "\n"

abbrev session_state_text : SessionState → String
session_state_text SessionState.progress = "Progress"
session_state_text SessionState.complete = "Complete"
session_state_text SessionState.unknown = "Unknown"

-- The lines of a session.
unfoldable pub session_text : SessionData → String
session_text s =
    "Id\t: "
    <> s.hash
    <> "\nName\t: "
    <> s.name
    <> "\nStarted\t: "
    <> to_string s.started
    <> "\nEnded\t: "
    <> to_string s.ended
    <> "\nState\t: "
    <> session_state_text s.state
    <> "\n"

-- The loop: a blank line between two entries.
unfoldable pub print_each : {A : Type 0} → (A → String) → List A → Step (Unit {0})
print_each text [] = pure tt
print_each text (x ∷ []) = perform (Call.print (text x))
print_each text (x ∷ y ∷ xs) = do
  perform (Call.print (text x))
  perform (Call.print "\n")
  print_each text (y ∷ xs)

abbrev as_device_list : BulkData → Outcome (List DeviceData)
as_device_list (BulkData.device_list ds) = ok ds
as_device_list _ = throws bad_any_cast

abbrev as_session_list : BulkData → Outcome (List SessionData)
as_session_list (BulkData.session_list ss) = ok ss
as_session_list _ = throws bad_any_cast

unfoldable pub do_device_list : Request → Step Bool
unfolding print_each device_text
do_device_list rq = do
  perform (Call.print rule)
  ds ← lift (as_device_list rq.bulk_data)
  print_each device_text ds
  pure true

unfoldable pub do_session_list : Request → Step Bool
unfolding print_each session_text
do_session_list rq = do
  perform (Call.print rule)
  ss ← lift (as_session_list rq.bulk_data)
  print_each session_text ss
  pure true

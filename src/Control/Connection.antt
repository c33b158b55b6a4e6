-- ===== src/Control/Connection.antt =====
-- control/Connection.cpp: what the collector sends becomes requests of the tool's queue.
use tkmcollector.Prelude.{String, Bool, true, false, List, []}
use tkmcollector.Messages.{DeviceData, SessionData, Recipient}
use tkmcollector.Run.{◌>>◌, perform, pure}
use tkmcollector.Exec.ReadLoop.{ReadEnd, read_loop}
use tkmcollector.Control.{Action, BulkData, Call, CollectorStatus, Step}
use tkmcollector.Control.Command.{plain}

-- msg::control::Message_Type; `other` stands for the types that the switch does not name.
pub data MessageType : Type 0 where
  set_session status device_list session_list other : MessageType

pub record Incoming (Payload : Type 0) : Type 0 where
  pub origin : Recipient
  pub type : MessageType
  pub payload : Payload

-- `UnpackTo` of protobuf.
pub record Unpack (Payload : Type 0) : Type 0 where
  pub session_info : Payload → String
  pub status : Payload → CollectorStatus
  pub device_list : Payload → List DeviceData
  pub session_list : Payload → List SessionData

abbrev is_collector : Recipient → Bool
is_collector Recipient.collector = true
is_collector _ = false

module _ {Payload : Type 0} where
  abbrev pub accepts : Incoming Payload → Bool
  accepts x = is_collector x.origin

module _ {Payload : Type 0} (unpack : Unpack Payload) where
  abbrev push : Action → BulkData → Step Bool
  push a b = do perform (Call.push (record { action = a; bulk_data = b; args = [] })); pure true

  -- The switch.
  unfoldable pub handle : Payload → MessageType → Step Bool
  handle p MessageType.set_session =
      push Action.set_session (BulkData.session_info (unpack.session_info p))
  handle p MessageType.status = push Action.collector_status (BulkData.status (unpack.status p))
  handle p MessageType.device_list =
      push Action.device_list (BulkData.device_list (unpack.device_list p))
  handle p MessageType.session_list =
      push Action.session_list (BulkData.session_list (unpack.session_list p))
  handle p MessageType.other = pure false

  -- The callback of the event source.
  unfoldable pub on_readable : List (Incoming Payload) → ReadEnd → Step Bool
  unfolding handle
  on_readable = read_loop accepts (λ x. handle x.payload x.type)

-- The finalize callback: the tool ends with its connection.
unfoldable pub on_removed : Step (Unit {0})
on_removed = perform (Call.push (plain Action.quit []))

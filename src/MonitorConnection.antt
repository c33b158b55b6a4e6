-- ===== src/MonitorConnection.antt =====
-- source/Connection.cpp: what a monitor sends becomes requests of its device.
pub mod Requests
use tkmcollector.Prelude.{ℕ, String, ◌<>◌, Bool, true, false, none, List, []}
use tkmcollector.Number.{to_string}
use tkmcollector.Messages.{Data, MonitorStatus, Recipient, SessionInfo}
use tkmcollector.Requests.{BulkData, DeviceAction, Request}
use tkmcollector.Exec.{Exec, Effect, ◌>>=◌, ◌>>◌, pure, perform}
use tkmcollector.Exec.ReadLoop.{ReadEnd, read_loop}

-- msg::monitor::Message_Type; `other` stands for the types that the switch does not name.
pub data MessageType : Type 0 where
  set_session monitor_data status other : MessageType

-- `UnpackTo` of protobuf, for the messages that a msg::monitor::Message carries.
pub record Unpack (Payload : Type 0) : Type 0 where
  pub session_info : Payload → SessionInfo
  pub monitor_data : Payload → Data
  pub status : Payload → MonitorStatus

-- An envelope with a msg::monitor::Message, and `time(NULL)` when it is handled.
pub record Incoming (Payload : Type 0) : Type 0 where
  pub origin : Recipient
  pub type : MessageType
  pub payload : Payload
  pub now : ℕ

abbrev pub accepts : {Payload : Type 0} → Incoming Payload → Bool
accepts x = elim x.origin [ Recipient.monitor ↦ true | _ ↦ false ]

-- The name that the collector gives to a session.
unfoldable pub session_name : ℕ → ℕ → String
session_name pid now = "Collector." <> (to_string pid <> ("." <> to_string now))

-- A request of the device, without client and arguments.
abbrev pub told : DeviceAction → BulkData → Request DeviceAction
told action bulk = record { client = none; action = action; args = []; bulk_data = bulk }

module _ {Payload : Type 0} (unpack : Unpack Payload) (pid : ℕ) {M : Type 0} (hash : String) where
  -- The body of the read loop, for the device with this hash; the answer of `pushRequest` is not read.
  unfoldable pub handle : Incoming Payload → Exec M Bool
  unfolding session_name
  handle x = elim x.type [
    | MessageType.set_session ↦ (do
      perform (
          Effect.push_device hash (
            told DeviceAction.set_session (
              BulkData.session_info
                (record (unpack.session_info x.payload) { name = session_name pid x.now }))))
      pure true)
    | MessageType.monitor_data ↦ (do
      perform (
          Effect.push_device hash (
            told DeviceAction.process_data (
              BulkData.monitor_data
                (record (unpack.monitor_data x.payload) { receive_time_sec = x.now }))))
      pure true)
    | MessageType.status ↦ (do
      perform (
          Effect.push_device hash
            (told DeviceAction.status (BulkData.monitor_status (unpack.status x.payload))))
      pure true)
    | MessageType.other ↦ pure false
  ]

  -- The callback of the connection's event source.
  unfoldable pub on_readable : List (Incoming Payload) → ReadEnd → Exec M Bool
  unfolding handle
  on_readable = read_loop accepts handle

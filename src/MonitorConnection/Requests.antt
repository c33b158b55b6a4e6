-- ===== src/MonitorConnection/Requests.antt =====
-- What a device is told by its monitor's messages.
use tkmcollector.Prelude.{
  ℕ, String, Bool, true, false, ◌≡◌, refl, List, [], ◌∷◌, ◌++◌, if◌then◌else◌, arith,
}
use tkmcollector.Outcome.{Returns}
use tkmcollector.Requests.{BulkData, DeviceAction, Request}
use tkmcollector.Exec.Trace.{device_requests}
use tkmcollector.Exec.ReadLoop.{ReadEnd, read_loop, keeps_source}
use tkmcollector.MonitorConnection.{
  Incoming, MessageType, Unpack, accepts, handle, on_readable, session_name, told,
}

-- The monitor's messages up to the first one of an unknown type, and whether there is none.
abbrev pub understood :
    {Payload : Type 0} → List (Incoming Payload) → List (Incoming Payload) × Bool
understood [] = ([], true)
understood (x ∷ xs) =
    let (ys, all) = understood xs in
    if accepts x
    then elim x.type [ MessageType.other ↦ ([], false) | _ ↦ (x ∷ ys, all) ]
    else (ys, all)

module _ {Payload : Type 0} (unpack : Unpack Payload) (pid : ℕ) where
  -- The session gets the collector's name, and the data the time of their reception.
  abbrev pub request_of : Incoming Payload → MessageType → List (Request DeviceAction)
  request_of x MessageType.set_session =
      told DeviceAction.set_session (
        BulkData.session_info
          (record (unpack.session_info x.payload) { name = session_name pid x.now }))
      ∷ []
  request_of x MessageType.monitor_data =
      told DeviceAction.process_data (
        BulkData.monitor_data (record (unpack.monitor_data x.payload) { receive_time_sec = x.now }))
      ∷ []
  request_of x MessageType.status =
      told DeviceAction.status (BulkData.monitor_status (unpack.status x.payload)) ∷ []
  request_of x MessageType.other = []

  abbrev pub all_told : List (Incoming Payload) → List (Request DeviceAction)
  all_told [] = []
  all_told (x ∷ xs) = request_of x x.type ++ all_told xs

  -- The callback returns. It has told the device what the monitor's messages up to the first of an
  -- unknown type stand for, each once and in their order, and nothing else; and it keeps the
  -- connection if there is none of an unknown type and the reading ends with nothing to read.
  pub on_readable_told :
      {M : Type 0} (hash : String) (xs : List (Incoming Payload)) (end : ReadEnd) (m : M)
      → Returns
          (λ (b, m', es).
            (b ≡ (if (understood xs).1 then keeps_source end else false))
            × (m' ≡ m)
            × (device_requests es ≡ all_told (understood xs).0))
          (on_readable unpack pid hash xs end m)
  unfolding on_readable read_loop handle session_name
  on_readable_told hash [] end m = (refl, refl, refl)
  on_readable_told hash (x ∷ xs) end m = ground (arith, on_readable_told hash xs end m)

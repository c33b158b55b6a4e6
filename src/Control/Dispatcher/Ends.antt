-- ===== src/Control/Dispatcher/Ends.antt =====
-- How the tool ends, and what it prints.
use tkmcollector.Prelude.{
  ℕ, String, true, false, ◌≡◌, refl, List, [], ◌∷◌, map, arith, str_eq, append-nil,
}
use tkmcollector.Outcome.{Returns}
use tkmcollector.Messages.{DeviceData, SessionData}
use tkmcollector.Exec.ReadLoop.{ReadEnd, read_loop}
use tkmcollector.Options.{Options}
use tkmcollector.Control.{Action, Answers, BulkData, Call, Request, Tool}
use tkmcollector.Control.Command.{plain}
use tkmcollector.Control.Connection.{Incoming, MessageType, Unpack, accepts, on_readable}
use tkmcollector.Control.Dispatcher.{request_handler, handle_action}
use tkmcollector.Control.Dispatcher.Lists.{
  device_text, do_device_list, do_session_list, print_each, rule, session_text,
}
use tkmcollector.Control.Trace.{printed, pushed}

-- A status of the collector as the tool's request.
abbrev pub status_request : {P : Type 0} → Unpack P → P → Request
status_request unpack x = record {
  action = Action.collector_status;
  bulk_data = BulkData.status (unpack.status x);
  args = [];
}

module _ {P : Type 0} (unpack : Unpack P) (tool : Answers) (o : Options) (hash : String → ℕ)
    (s : Tool) where
  -- A status that answers a command, which is any but that of the session's request, becomes one
  -- request of the tool, and its handling returns, having asked the tool exactly once to quit.
  pub on_readable-quits :
      (x : Incoming P)
      → accepts x ≡ true
      → x.type ≡ MessageType.status
      → str_eq (unpack.status x.payload).request_id "RequestSession" ≡ false
      → Returns
          (λ (b, s', cs).
            (b ≡ true)
            × (pushed cs ≡ status_request unpack x.payload ∷ [])
            × Returns
                (λ (_, _, ds). pushed ds ≡ plain Action.quit [] ∷ [])
                (request_handler tool o hash (status_request unpack x.payload) s'))
          (on_readable unpack (x ∷ []) ReadEnd.again s)
  unfolding on_readable read_loop request_handler handle_action
  on_readable-quits x h k q = ground arith

-- The entries with a separator between them.
abbrev pub intersperse : String → List String → List String
intersperse t [] = []
intersperse t (x ∷ []) = x ∷ []
intersperse t (x ∷ y ∷ xs) = x ∷ t ∷ intersperse t (y ∷ xs)

print_each-intersperse :
    {A : Type 0} (text : A → String) (xs : List A) (s : Tool)
    → Returns
        (λ (_, s', cs). (printed cs ≡ intersperse "\n" (map text xs)) × (pushed cs ≡ []))
        (print_each text xs s)
unfolding print_each
print_each-intersperse text [] s = (refl, refl)
print_each-intersperse text (x ∷ []) s = (refl, refl)
print_each-intersperse text (x ∷ y ∷ xs) s = ground (arith, print_each-intersperse text (y ∷ xs) s)

-- A list of devices or of sessions from the collector is printed as a rule and the entries with a blank
-- line between each two, in the collector's order, and does not end the tool.
pub lists-printed :
    (tool : Answers) (o : Options) (hash : String → ℕ) (s : Tool) (ds : List DeviceData)
    (ss : List SessionData)
    → Returns
        (λ (_, _, cs).
          (printed cs ≡ rule ∷ intersperse "\n" (map device_text ds)) × (pushed cs ≡ []))
        (request_handler tool o hash
          (record { action = Action.device_list; bulk_data = BulkData.device_list ds; args = [] })
          s)
      × Returns
          (λ (_, _, cs).
            (printed cs ≡ rule ∷ intersperse "\n" (map session_text ss)) × (pushed cs ≡ []))
          (request_handler tool o hash
            (record {
              action = Action.session_list;
              bulk_data = BulkData.session_list ss;
              args = [];
            })
            s)
unfolding request_handler handle_action do_device_list do_session_list
lists-printed tool o hash s ds ss = grind (
  arith,
  (λ (cs : List Call). append-nil cs),
  print_each-intersperse device_text ds s,
  print_each-intersperse session_text ss s,
)

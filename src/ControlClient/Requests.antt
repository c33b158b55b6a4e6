-- ===== src/ControlClient/Requests.antt =====
-- What the dispatcher is asked on behalf of a control client.
use tkmcollector.Prelude.{
  Bool, true, false, ◌≡◌, refl, List, [], ◌∷◌, ◌++◌, Option, none, some, if◌then◌else◌, ap₂, ◌∙◌,
  Bool-cases, inl, inr,
}
use tkmcollector.Outcome.{Returns, Returns-mono}
use tkmcollector.Requests.{BulkData, Client, DispatcherAction, Request}
use tkmcollector.Exec.{Env, Effect}
use tkmcollector.Exec.Rules.{>>=-Returns}
use tkmcollector.Exec.Trace.{dispatcher_requests, dispatcher_requests-append}
use tkmcollector.Exec.ReadLoop.{ReadEnd, read_loop, keeps_source}
use tkmcollector.ControlClient.{
  RequestType, ControlRequest, Incoming, Unpack, accepts, id_args, forced_args, handle_type, handle,
  on_readable,
}

-- The dispatcher's action for a command; `other` types close the connection, and RequestSession is
-- answered at once.
abbrev pub command_action : RequestType → Option DispatcherAction
command_action RequestType.request_session = none
command_action RequestType.init_database = some DispatcherAction.init_database
command_action RequestType.quit_collector = some DispatcherAction.quit_collector
command_action RequestType.get_devices = some DispatcherAction.get_devices
command_action RequestType.get_sessions = some DispatcherAction.get_sessions
command_action RequestType.remove_session = some DispatcherAction.remove_session
command_action RequestType.add_device = some DispatcherAction.add_device
command_action RequestType.remove_device = some DispatcherAction.remove_device
command_action RequestType.connect_device = some DispatcherAction.connect_device
command_action RequestType.disconnect_device = some DispatcherAction.disconnect_device
command_action RequestType.start_collecting = some DispatcherAction.start_collecting
command_action RequestType.stop_collecting = some DispatcherAction.stop_collecting
command_action RequestType.other = none

abbrev pub IsCommand : RequestType → Type 0
IsCommand RequestType.request_session = ⊥
IsCommand RequestType.other = ⊥
IsCommand _ = Unit {0}

module _ {Payload : Type 0} (unpack : Unpack Payload) (client : Client) where
  -- The data of a command's request.
  abbrev pub command_data : RequestType → Payload → BulkData
  command_data RequestType.init_database p = BulkData.int 0
  command_data RequestType.quit_collector p = BulkData.int 0
  command_data RequestType.get_devices p = BulkData.int 0
  command_data RequestType.remove_session p = BulkData.session_data (unpack.session_data p)
  command_data _ p = BulkData.device_data (unpack.device_data p)

  abbrev reads_forced : RequestType → Bool
  reads_forced RequestType.get_devices = false
  reads_forced _ = true

  -- The requests that a command stands for.
  abbrev pub asked_as :
      RequestType
      → ControlRequest Payload
      → Option DispatcherAction
      → List (Request DispatcherAction)
  asked_as t rq none = []
  asked_as t rq (some a) =
      record {
        client = some client;
        action = a;
        args = if reads_forced t then forced_args rq else id_args rq;
        bulk_data = command_data t rq.payload;
      }
      ∷ []

  abbrev pub asked : RequestType → ControlRequest Payload → List (Request DispatcherAction)
  asked t rq = asked_as t rq (command_action t)

  abbrev pub all_asked : List (Incoming Payload) → List (Request DispatcherAction)
  all_asked [] = []
  all_asked (x ∷ xs) =
      if accepts x then asked x.request.type x.request ++ all_asked xs else all_asked xs

  abbrev pub AllCommands : List (Incoming Payload) → Type 0
  AllCommands [] = Unit {0}
  AllCommands (x ∷ xs) = (accepts x ≡ true → IsCommand x.request.type) × AllCommands xs

  module _ (env : Env)
      (pushes : (r : Request DispatcherAction) → env (Effect.push_dispatcher r) ≡ true) where
    handle_type-asked :
        {M : Type 0} (rq : ControlRequest Payload) (t : RequestType) (m : M)
        → IsCommand t
        → Returns
            (λ (b, m', es). (b ≡ true) × (m' ≡ m) × (dispatcher_requests es ≡ asked t rq))
            (handle_type unpack env client rq t m)
    unfolding handle_type
    handle_type-asked rq RequestType.request_session m c = elim c [ ]
    handle_type-asked rq RequestType.other m c = elim c [ ]
    handle_type-asked rq _ m c = (pushes _, refl, refl)

    loop-asked :
        {M : Type 0} (xs : List (Incoming Payload)) (end : ReadEnd) (m : M)
        → AllCommands xs
        → Returns
            (λ (b, m', es).
              (b ≡ keeps_source end) × (m' ≡ m) × (dispatcher_requests es ≡ all_asked xs))
            (read_loop accepts (handle unpack env client) xs end m)
    unfolding read_loop handle
    loop-asked [] end m c = (refl, refl, refl)
    loop-asked (x ∷ xs) end m c = elim (Bool-cases (accepts x)) [
      | inl e ↦ rw e (
          >>=-Returns
            (λ (b, m', es).
              (b ≡ true) × (m' ≡ m) × (dispatcher_requests es ≡ asked x.request.type x.request))
            _ (handle unpack env client x) m _
            (handle_type-asked x.request x.request.type m (c.0 e))
            λ b m' es p.
              rw (p.0, p.1)
                (Returns-mono
                  (λ (b, m', es).
                    (b ≡ keeps_source end) × (m' ≡ m) × (dispatcher_requests es ≡ all_asked xs))
                  _ (read_loop accepts (handle unpack env client) xs end m)
                  (λ (_, _, fs) q. (q.0, q.1, dispatcher_requests-append es fs ∙ ap₂ ◌++◌ p.2 q.2))
                  (loop-asked xs end m c.1)))
      | inr e ↦ rw e (loop-asked xs end m c.1)
    ]

    -- When every request that comes from the control tool is a command, and the dispatcher's queue
    -- takes what is pushed, the client's callback reads all messages, asks the dispatcher for exactly
    -- their commands in order, each for this client, with the request's id and with the force flag
    -- where the command has one, and gives the end of the reading as its result. Messages from
    -- elsewhere are skipped.
    pub on_readable-asked :
        {M : Type 0} (xs : List (Incoming Payload)) (end : ReadEnd) (m : M)
        → AllCommands xs
        → Returns
            (λ (b, m', es).
              (b ≡ keeps_source end) × (m' ≡ m) × (dispatcher_requests es ≡ all_asked xs))
            (on_readable unpack env client xs end m)
    unfolding on_readable
    on_readable-asked xs end m c = loop-asked xs end m c

-- ===== src/MonitorDevice/Replies.antt =====
-- What a client hears of its request to a device.
use tkmcollector.Prelude.{Bool, true, false, ◌≡◌, refl, List, [], ◌∷◌, arith}
use tkmcollector.Outcome.{Outcome, ok}
use tkmcollector.SafeList.{SafeList}
use tkmcollector.Requests.{DeviceAction, DispatcherAction, Request}
use tkmcollector.Requests.Reply.{IsReply}
use tkmcollector.Exec.{Env, Effect}
use tkmcollector.Exec.Trace.{dispatcher_requests, device_requests}
use tkmcollector.MonitorDevice.{Device}
use tkmcollector.MonitorDevice.DataSource.{DataSource}
use tkmcollector.MonitorDevice.Connect.{do_connect, do_send_descriptor, do_disconnect}
use tkmcollector.MonitorDevice.Collect.{
  do_start_collecting, do_stop_collecting, handle_action, request_handler,
}

abbrev is_send_descriptor : DeviceAction → Bool
is_send_descriptor DeviceAction.send_descriptor = true
is_send_descriptor _ = false

abbrev HasNoDescriptor : List (Request DeviceAction) → Type 0
HasNoDescriptor [] = Unit {0}
HasNoDescriptor (q ∷ qs) = (is_send_descriptor q.action ≡ false) × HasNoDescriptor qs

-- Either one request went to the dispatcher, and it is a reply, and the device has not queued a
-- SendDescriptor; or the request is a Connect, none went there, and the device has queued the same
-- request as a SendDescriptor, which is the second half of Connect.
abbrev pub AreServed :
    Request DeviceAction → List (Request DispatcherAction) → List (Request DeviceAction) → Type 0
AreServed rq [] qs =
    (rq.action ≡ DeviceAction.connect)
    × (qs ≡ record rq { action = DeviceAction.send_descriptor } ∷ [])
AreServed rq (r ∷ []) qs = IsReply rq r × HasNoDescriptor qs
AreServed rq (r ∷ s ∷ rs) qs = ⊥

-- A run that returns has served the client.
abbrev pub IsServed :
    {S : Type 0} → Request DeviceAction → Outcome (Bool × S × List Effect) → Type 0
IsServed rq (ok (b, s, es)) = AreServed rq (dispatcher_requests es) (device_requests es)
IsServed rq _ = Unit {0}

-- The actions that a control client asks for, and SendDescriptor, which serves Connect.
abbrev pub IsClientAction : DeviceAction → Type 0
IsClientAction DeviceAction.connect = Unit {0}
IsClientAction DeviceAction.disconnect = Unit {0}
IsClientAction DeviceAction.send_descriptor = Unit {0}
IsClientAction DeviceAction.start_collecting = Unit {0}
IsClientAction DeviceAction.stop_collecting = Unit {0}
IsClientAction _ = ⊥

module _ {L : Type 0} (env : Env) (rq : Request DeviceAction) (d : Device L) where
  do_connect-IsServed : rq.action ≡ DeviceAction.connect → IsServed rq (do_connect env rq d)
  unfolding do_connect
  do_connect-IsServed h = ground arith

  do_disconnect-IsServed : IsServed rq (do_disconnect env rq d)
  unfolding do_disconnect
  do_disconnect-IsServed = ground arith

  do_start_collecting-IsServed : IsServed rq (do_start_collecting env rq d)
  unfolding do_start_collecting
  do_start_collecting-IsServed = ground arith

  do_stop_collecting-IsServed : IsServed rq (do_stop_collecting env rq d)
  unfolding do_stop_collecting
  do_stop_collecting-IsServed = ground arith

  do_send_descriptor-IsServed : IsServed rq (do_send_descriptor env rq d)
  unfolding do_send_descriptor
  do_send_descriptor-IsServed = ground arith

module _ (S : SafeList DataSource) (env : Env) (rq : Request DeviceAction)
    (d : Device S.Carrier) where
  handle_action-IsServed :
      (a : DeviceAction)
      → rq.action ≡ a
      → IsClientAction a
      → IsServed rq (handle_action S env rq a d)
  unfolding handle_action
  handle_action-IsServed DeviceAction.connect h c = do_connect-IsServed env rq d h
  handle_action-IsServed DeviceAction.disconnect h c = do_disconnect-IsServed env rq d
  handle_action-IsServed DeviceAction.send_descriptor h c = do_send_descriptor-IsServed env rq d
  handle_action-IsServed DeviceAction.start_collecting h c = do_start_collecting-IsServed env rq d
  handle_action-IsServed DeviceAction.stop_collecting h c = do_stop_collecting-IsServed env rq d
  handle_action-IsServed _ h c = elim c [ ]

  -- A handled client request that returns has put exactly one status on the dispatcher's queue, for
  -- the same client, with the same request id and with a status, and queued no SendDescriptor; or, if
  -- it is a Connect, it has put none there and queued only SendDescriptor, with the same client,
  -- arguments and data.
  pub request_handler-IsServed : IsClientAction rq.action → IsServed rq (request_handler S env rq d)
  unfolding request_handler
  request_handler-IsServed c = handle_action-IsServed rq.action refl c

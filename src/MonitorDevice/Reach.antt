-- ===== src/MonitorDevice/Reach.antt =====
-- Histories of a device: requests, ticks of the lanes and the loss of the connection, in any order.
use tkmcollector.Prelude.{Bool, ◌≡◌, refl, sym, subst, List, arith, ◌∙◌}
use tkmcollector.Outcome.{Outcome, ok, Ensures}
use tkmcollector.SafeList.{SafeList}
use tkmcollector.Messages.{DeviceData}
use tkmcollector.Requests.{Request, DeviceAction}
use tkmcollector.Exec.{Env, Effect, UpdateLane}
use tkmcollector.MonitorDevice.{Device, connection_removed, new_device}
use tkmcollector.MonitorDevice.DataSource.{DataSource}
use tkmcollector.MonitorDevice.Lanes.{update_lane}
use tkmcollector.MonitorDevice.Lanes.Keeps.{update_lane_keeps}
use tkmcollector.MonitorDevice.Collect.{request_handler}
use tkmcollector.MonitorDevice.Transitions.{IsStep, request_handler-IsStep}

module _ (S : SafeList DataSource) where
  -- The surroundings may answer each step differently.
  pub data Step : Device S.Carrier → Device S.Carrier → Type 0 where
    handles :
        {d d' : Device S.Carrier} (env : Env) (rq : Request DeviceAction) (b : Bool)
        (es : List Effect)
        → request_handler S env rq d ≡ ok (b, d', es)
        → Step d d'
    ticks :
        {d d' : Device S.Carrier} (env : Env) (lane : UpdateLane) (b : Bool) (es : List Effect)
        → update_lane S env lane d ≡ ok (b, d', es)
        → Step d d'
    removed :
        {d d' : Device S.Carrier} (es : List Effect)
        → connection_removed d ≡ ok (tt, d', es)
        → Step d d'

  pub data Reach (d : Device S.Carrier) : Device S.Carrier → Type 0 where
    here : Reach d d
    next : {d' d'' : Device S.Carrier} → Reach d d' → Step d' d'' → Reach d d''

-- The entry that a device was made from, and the agreement of its two records of the session.
pub record Inv {L : Type 0} (entry : DeviceData) (d : Device L) : Type 0 where
  pub hash : d.device_data.hash ≡ entry.hash
  pub address : d.device_data.address ≡ entry.address
  pub port : d.device_data.port ≡ entry.port
  pub session : d.session_hash ≡ d.session_info.hash

-- A postcondition of a run holds of the value that the run is known to return.
ensured : {A : Type 0} (P : A → Type 0) (o : Outcome A) {a : A} → o ≡ ok a → Ensures P o → P a
ensured P o e h = subst (Ensures P) e h

connection_removed-Inv :
    {L : Type 0} {entry : DeviceData} (d : Device L)
    → Inv entry d
    → Ensures (λ (_, d', _). Inv entry d') (connection_removed d)
unfolding connection_removed
connection_removed-Inv d v = ground arith

Step-Inv :
    {S : SafeList DataSource} {entry : DeviceData} {d d' : Device S.Carrier}
    → Step S d d'
    → Inv entry d
    → Inv entry d'
Step-Inv {S} (handles {d = d} env rq b es run) v =
    let s =
      ensured (λ (_, d', _). IsStep rq.action d d') _ run (request_handler-IsStep S env rq d) in
    record {
      hash = s.same_hash ∙ v.hash;
      address = s.same_address ∙ v.address;
      port = s.same_port ∙ v.port;
      session = s.one_session v.session;
    }
Step-Inv {S} (ticks {d = d} env lane b es run) v =
    subst (Inv _) (sym (ensured (λ (_, d', _). d' ≡ d) _ run (update_lane_keeps S env lane d))) v
Step-Inv {S} {entry} (removed {d = d} es run) v =
    ensured (λ (_, d', _). Inv entry d') _ run (connection_removed-Inv d v)

-- However a device is used, its hash, address and port stay those of the entry that it was made
-- from, and the hash of its session data stays that of its session info.
pub Reach-Inv :
    (S : SafeList DataSource) (entry : DeviceData) {d : Device S.Carrier}
    → Reach S (new_device S.empty entry) d
    → Inv entry d
unfolding new_device
Reach-Inv S entry here = record { hash = refl; address = refl; port = refl; session = refl }
Reach-Inv S entry (next r s) = Step-Inv s (Reach-Inv S entry r)

-- ===== src/System/Loops/Lanes.antt =====
-- What the callback of a lane's timer sums up to (source/MonitorDevice.cpp).
use tkmcollector.Prelude.{ℕ, true, String, ◌≡◌, arith, List, [], ◌∷◌, if◌then◌else◌}
use tkmcollector.SafeList.{SafeList}
use tkmcollector.Messages.{Envelope}
use tkmcollector.Exec.{Effect, Env, Peer, UpdateLane, ◌>>◌, gets, pure}
use tkmcollector.MonitorDevice.{Device}
use tkmcollector.MonitorDevice.DataSource.{DataSource, serves}
use tkmcollector.MonitorDevice.Lanes.{update_entries, update_lane, update, write_request}
use tkmcollector.System.Measure.{Costs, >>=-Costs}

-- A sum that does not count what is sent to the monitors.
module _ (f : Effect → ℕ)
    (no_send : (hash : String) (e : Envelope) → f (Effect.send (Peer.monitor hash) e) ≡ 0)
    (no_flush : (hash : String) → f (Effect.flush (Peer.monitor hash)) ≡ 0) (env : Env) where
  update-Costs : {L : Type 0} (x : DataSource) (d : Device L) → Costs f 0 (update env x d)
  unfolding update write_request
  update-Costs x d = grind (arith, no_flush d.device_data.hash, no_send d.device_data.hash)

  entries-Costs :
      {L : Type 0} (lane : UpdateLane) (xs : List DataSource) (d : Device L)
      → Costs f 0 (update_entries env lane xs d)
  unfolding update_entries
  entries-Costs lane [] d = ground arith
  entries-Costs lane (x ∷ xs) d =
      >>=-Costs f 0 0 (if serves lane x then update env x else pure tt) d
        (λ _. update_entries env lane xs) (ground (arith, update-Costs x d))
        (λ _. entries-Costs lane xs)

  pub lane-Costs :
      (D : SafeList DataSource) (lane : UpdateLane) (d : Device D.Carrier)
      → Costs f 0 (update_lane D env lane d)
  unfolding update_lane
  lane-Costs D lane d =
      >>=-Costs f 0 0 (gets (λ d. D.entries d.data_sources)) d
        (λ entries. update_entries env lane entries >> pure true) (ground arith)
        λ entries d'.
          >>=-Costs f 0 0 (update_entries env lane entries) d' (λ _. pure true)
            (entries-Costs lane entries d') (λ _ _. ground arith)

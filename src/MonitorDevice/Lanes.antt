-- ===== src/MonitorDevice/Lanes.antt =====
-- `startUpdateLanes`, `configUpdateLanes` and the callbacks of the lanes' timers
-- (source/MonitorDevice.cpp).
pub mod Requests
pub mod Keeps
use tkmcollector.Prelude.{Bool, true, Option, none, some, List, [], ◌∷◌, if◌then◌else◌}
use tkmcollector.SafeList.{SafeList, remove_each}
use tkmcollector.Messages.{DataSourceType, Envelope, SessionInfo}
use tkmcollector.Exec.{
  Env, Exec, Effect, EventSource, Peer, UpdateLane, ◌>>=◌, ◌>>◌, pure, gets, modify, perform, fault,
  write_envelope,
}
use tkmcollector.MonitorDevice.{Device}
use tkmcollector.MonitorDevice.DataSource.{DataSource, data_source, serves}

module _ {L : Type 0} where
  -- A callback's `getConnection()->writeEnvelope(...)`; its result is dropped.
  unfoldable pub write_request : Env → Envelope → Exec (Device L) (Unit {0})
  write_request env e d = elim d.connection [
    | none ↦ fault d
    | some c ↦ (do write_envelope env (Peer.monitor d.device_data.hash) e; pure tt) d
  ]

  -- DataSource::update
  unfoldable pub update : Env → DataSource → Exec (Device L) (Unit {0})
  unfolding write_request
  update env entry = elim entry.callback [ none ↦ pure tt | some e ↦ write_request env e ]

  unfoldable pub update_entries : Env → UpdateLane → List DataSource → Exec (Device L) (Unit {0})
  update_entries env lane [] = pure tt
  update_entries env lane (x ∷ xs) = do
    if serves lane x then update env x else pure tt
    update_entries env lane xs

module _ (S : SafeList DataSource) where
  pub append_sources : UpdateLane → List DataSourceType → S.Carrier → S.Carrier
  append_sources lane [] l = l
  append_sources lane (t ∷ ts) l = elim (data_source lane t) [
    | none ↦ append_sources lane ts l
    | some x ↦ append_sources lane ts (S.append l x)
  ]

  pub lane_sources : SessionInfo → S.Carrier → S.Carrier
  lane_sources info l = append_sources UpdateLane.slow info.slow_lane_sources (
      append_sources UpdateLane.pace info.pace_lane_sources
        (append_sources UpdateLane.fast info.fast_lane_sources l))

  -- The list that configUpdateLanes leaves: the old entries go, and the session's sources come.
  pub config_sources : SessionInfo → S.Carrier → S.Carrier
  config_sources info l = S.commit (lane_sources info (S.commit (remove_each S (S.entries l) l)))

  -- configUpdateLanes
  unfoldable pub config_update_lanes : Exec (Device S.Carrier) (Unit {0})
  config_update_lanes =
      modify λ d. record d { data_sources = config_sources d.session_info d.data_sources }

  -- The callback of a lane's timer.
  unfoldable pub update_lane : Env → UpdateLane → Exec (Device S.Carrier) Bool
  update_lane env lane = do
    entries ← gets (λ d. S.entries d.data_sources)
    update_entries env lane entries
    pure true

  -- startUpdateLanes
  unfoldable pub start_update_lanes : Exec (Device S.Carrier) (Unit {0})
  unfolding config_update_lanes
  start_update_lanes = do
    modify (λ d. record d { fast_lane_timer = true })
    modify (λ d. record d { pace_lane_timer = true })
    modify (λ d. record d { slow_lane_timer = true })
    config_update_lanes
    info ← gets (λ d. d.session_info)
    perform (Effect.start_timer UpdateLane.fast info.fast_lane_interval)
    perform (Effect.start_timer UpdateLane.pace info.pace_lane_interval)
    perform (Effect.start_timer UpdateLane.slow info.slow_lane_interval)
    perform (Effect.add_event_source (EventSource.lane_timer UpdateLane.fast))
    perform (Effect.add_event_source (EventSource.lane_timer UpdateLane.pace))
    perform (Effect.add_event_source (EventSource.lane_timer UpdateLane.slow))

-- ===== src/MonitorDevice/Lanes/Requests.antt =====
-- What a lane's timer sends: the requests of the session's sources for that lane.
use tkmcollector.Prelude.{
  ◌≡◌, refl, sym, ap, ◌∙◌, none, some, List, [], ◌∷◌, ◌++◌, arith, if◌then◌else◌, append-nil,
  append_assoc, Option-cases, inl, inr,
}
use tkmcollector.Outcome.{ending, returns}
use tkmcollector.SafeList.{SafeList, IsLawful, remove_each}
use tkmcollector.Messages.{DataSourceType, Envelope, SessionInfo}
use tkmcollector.Exec.{Env, Effect, Peer, UpdateLane}
use tkmcollector.MonitorDevice.{Device}
use tkmcollector.MonitorDevice.DataSource.{DataSource, data_source, serves, update_callback}
use tkmcollector.MonitorDevice.Lanes.{append_sources, lane_sources, config_sources}
use tkmcollector.MonitorDevice.Collect.{do_start_stream}

-- The requests of the types that the switches know, in order.
abbrev pub requests_of : List DataSourceType → List Envelope
requests_of [] = []
requests_of (t ∷ ts) = elim (update_callback t) [
  | none ↦ requests_of ts
  | some e ↦ e ∷ requests_of ts
]

-- A session's list of sources for a lane; no list is for `any`.
abbrev pub lane_types : UpdateLane → SessionInfo → List DataSourceType
lane_types UpdateLane.fast info = info.fast_lane_sources
lane_types UpdateLane.pace info = info.pace_lane_sources
lane_types UpdateLane.slow info = info.slow_lane_sources
lane_types UpdateLane.any info = []

-- The effects of writing envelopes to a peer.
abbrev pub writes : Env → Peer → List Envelope → List Effect
writes env p [] = []
writes env p (e ∷ es) =
    Effect.send p e
    ∷ (if env (Effect.send p e) then Effect.flush p ∷ writes env p es else writes env p es)

abbrev sources : UpdateLane → List DataSourceType → List DataSource
sources lane [] = []
sources lane (t ∷ ts) = elim (data_source lane t) [
  | none ↦ sources lane ts
  | some x ↦ x ∷ sources lane ts
]

-- The requests that a tick of a lane makes of the entries.
unfoldable pub tick : UpdateLane → List DataSource → List Envelope
tick lane [] = []
tick lane (x ∷ xs) = elim x.callback [
  | none ↦ tick lane xs
  | some e ↦ if serves lane x then e ∷ tick lane xs else tick lane xs
]

tick-append :
    (lane : UpdateLane) (xs ys : List DataSource)
    → tick lane (xs ++ ys) ≡ tick lane xs ++ tick lane ys
unfolding tick
tick-append lane [] ys = refl
tick-append lane (x ∷ xs) ys = ground (arith, tick-append lane xs ys)

tick-sources_fast :
    (lane : UpdateLane) (ts : List DataSourceType)
    → tick lane (sources UpdateLane.fast ts)
      ≡ elim lane [ UpdateLane.fast ↦ requests_of ts | _ ↦ [] ]
unfolding tick data_source serves
tick-sources_fast lane [] = ground arith
tick-sources_fast lane (t ∷ ts) = ground (arith, tick-sources_fast lane ts)

tick-sources_pace :
    (lane : UpdateLane) (ts : List DataSourceType)
    → tick lane (sources UpdateLane.pace ts)
      ≡ elim lane [ UpdateLane.pace ↦ requests_of ts | _ ↦ [] ]
unfolding tick data_source serves
tick-sources_pace lane [] = ground arith
tick-sources_pace lane (t ∷ ts) = ground (arith, tick-sources_pace lane ts)

tick-sources_slow :
    (lane : UpdateLane) (ts : List DataSourceType)
    → tick lane (sources UpdateLane.slow ts)
      ≡ elim lane [ UpdateLane.slow ↦ requests_of ts | _ ↦ [] ]
unfolding tick data_source serves
tick-sources_slow lane [] = ground arith
tick-sources_slow lane (t ∷ ts) = ground (arith, tick-sources_slow lane ts)

pub tick-config :
    (lane : UpdateLane) (info : SessionInfo)
    → tick lane (
        sources UpdateLane.fast info.fast_lane_sources
        ++ (sources UpdateLane.pace info.pace_lane_sources
            ++ sources UpdateLane.slow info.slow_lane_sources))
      ≡ requests_of (lane_types lane info)
tick-config lane info =
    let fast = sources UpdateLane.fast info.fast_lane_sources in
    let pace = sources UpdateLane.pace info.pace_lane_sources in
    let slow = sources UpdateLane.slow info.slow_lane_sources in
    ground (
      arith,
      tick-append lane fast (pace ++ slow),
      tick-append lane pace slow,
      tick-sources_fast lane info.fast_lane_sources,
      tick-sources_pace lane info.pace_lane_sources,
      tick-sources_slow lane info.slow_lane_sources,
      append-nil (requests_of info.fast_lane_sources),
      append-nil (requests_of info.pace_lane_sources),
    )

module _ (S : SafeList DataSource) (law : IsLawful S) where
  entries-append_sources :
      (lane : UpdateLane) (ts : List DataSourceType) (l : S.Carrier)
      → S.entries (S.commit (append_sources S lane ts l))
        ≡ S.entries (S.commit l) ++ sources lane ts
  unfolding append_sources
  entries-append_sources lane [] l = sym (append-nil (S.entries (S.commit l)))
  entries-append_sources lane (t ∷ ts) l = elim (Option-cases (data_source lane t)) [
    | inl e ↦ rw (e, append_sources, sources) (entries-append_sources lane ts l)
    | inr (x, e) ↦
        rw (e, append_sources, sources)
          (entries-append_sources lane ts (S.append l x)
            ∙ rw (law.commit-append l x)
                (append_assoc (S.entries (S.commit l)) (x ∷ []) (sources lane ts)))
  ]

  pub entries-config_sources :
      (info : SessionInfo) (l : S.Carrier)
      → law.IsCommitted l
      → S.entries (config_sources S info l)
        ≡ sources UpdateLane.fast info.fast_lane_sources
          ++ (sources UpdateLane.pace info.pace_lane_sources
              ++ sources UpdateLane.slow info.slow_lane_sources)
  unfolding config_sources lane_sources
  entries-config_sources info l h =
      let r = remove_each S (S.entries l) l in
      let cleared =
        law.commit_idle (S.commit r) (law.commit-IsCommitted r) ∙ law.commit-remove_each l h in
      let fast = sources UpdateLane.fast info.fast_lane_sources in
      let pace = sources UpdateLane.pace info.pace_lane_sources in
      let slow = sources UpdateLane.slow info.slow_lane_sources in
      entries-append_sources UpdateLane.slow info.slow_lane_sources _
      ∙ ap (λ z. z ++ slow) (entries-append_sources UpdateLane.pace info.pace_lane_sources _)
      ∙ ap (λ z. (z ++ pace) ++ slow)
          (entries-append_sources UpdateLane.fast info.fast_lane_sources _)
      ∙ ap (λ z. ((z ++ fast) ++ pace) ++ slow) cleared
      ∙ append_assoc fast pace slow

  pub stream_returns : (d : Device S.Carrier) → ending (do_start_stream S d) ≡ returns
  unfolding do_start_stream
  stream_returns d = ground arith

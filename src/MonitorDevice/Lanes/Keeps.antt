-- ===== src/MonitorDevice/Lanes/Keeps.antt =====
-- A tick of a lane leaves the device as it is; without a connection it goes through a null pointer.
use tkmcollector.Prelude.{Bool, ◌≡◌, refl, none, List, [], ◌∷◌, arith, ap, ◌∙◌}
use tkmcollector.Outcome.{ok, null_pointer, Ensures, Returns, Returns-of_runs}
use tkmcollector.SafeList.{SafeList, IsLawful}
use tkmcollector.Messages.{Envelope}
use tkmcollector.Exec.{Env, Effect, UpdateLane}
use tkmcollector.MonitorDevice.{Device}
use tkmcollector.MonitorDevice.DataSource.{DataSource}
use tkmcollector.MonitorDevice.Collect.{do_start_stream}
use tkmcollector.MonitorDevice.Lanes.{update_lane, update_entries, update}
use tkmcollector.MonitorDevice.Lanes.Requests.{
  requests_of, lane_types, tick, tick-config, entries-config_sources, stream_returns,
}

update_entries_keeps :
    {L : Type 0} (env : Env) (lane : UpdateLane) (xs : List DataSource) (d : Device L)
    → Ensures (λ (_, d', _). d' ≡ d) (update_entries env lane xs d)
unfolding update_entries update
update_entries_keeps env lane [] d = refl
update_entries_keeps env lane (x ∷ xs) d = ground (arith, update_entries_keeps env lane xs d)

pub update_lane_keeps :
    (S : SafeList DataSource) (env : Env) (lane : UpdateLane) (d : Device S.Carrier)
    → Ensures (λ (_, d', _). d' ≡ d) (update_lane S env lane d)
unfolding update_lane
update_lane_keeps S env lane d =
    ground (arith, update_entries_keeps env lane (S.entries d.data_sources) d)

update_entries_crashes :
    {L : Type 0} (env : Env) (lane : UpdateLane) (d : Device L) (xs : List DataSource)
    (e : Envelope) (es : List Envelope)
    → d.connection ≡ none
    → tick lane xs ≡ e ∷ es
    → update_entries env lane xs d ≡ null_pointer
unfolding update_entries update tick
update_entries_crashes env lane d [] e es gone h = ground arith
update_entries_crashes env lane d (x ∷ xs) e es gone h =
    ground (arith, gone, update_entries_crashes env lane d xs e es gone)

stale_run_crashes :
    (S : SafeList DataSource) (law : IsLawful S) (env : Env) (lane : UpdateLane)
    (d : Device S.Carrier) (e : Envelope) (rest : List Envelope) {b : Bool} {d' : Device S.Carrier}
    {es : List Effect}
    → law.IsCommitted d.data_sources
    → d.connection ≡ none
    → requests_of (lane_types lane d.session_info) ≡ e ∷ rest
    → do_start_stream S d ≡ ok (b, d', es)
    → update_lane S env lane d' ≡ null_pointer
unfolding do_start_stream update_lane
stale_run_crashes S law env lane d e rest {d' = d'} h gone known run =
    let sent =
      ap (tick lane) (entries-config_sources S law d.session_info d.data_sources h)
      ∙ tick-config lane d.session_info
      ∙ known in
    let gone' : d'.connection ≡ none = ground (arith, gone, run) in
    let fed : tick lane (S.entries d'.data_sources) ≡ e ∷ rest = ground (arith, run, sent) in
    ground (arith, update_entries_crashes env lane d' (S.entries d'.data_sources) e rest gone' fed)

-- If StartStream is handled after the device has lost its connection, it returns, and the next tick
-- of a lane that has a known source goes through the null connection.
pub stale_stream_crashes :
    (S : SafeList DataSource) (law : IsLawful S) (env : Env) (lane : UpdateLane)
    (d : Device S.Carrier) (e : Envelope) (rest : List Envelope)
    → law.IsCommitted d.data_sources
    → d.connection ≡ none
    → requests_of (lane_types lane d.session_info) ≡ e ∷ rest
    → Returns (λ (_, d', _). update_lane S env lane d' ≡ null_pointer) (do_start_stream S d)
stale_stream_crashes S law env lane d e rest h gone known =
    Returns-of_runs _ (do_start_stream S d) (stream_returns S law d)
      λ _ run. stale_run_crashes S law env lane d e rest h gone known run

-- ===== src/System/Sound/Reach.antt =====
-- Nothing that the collector asks of its dispatcher and its database is malformed.
use tkmcollector.Prelude.{ℕ, ◌≡◌, arith, ap, none, List, ◌∷◌, ◌++◌}
use tkmcollector.SafeList.{SafeList}
use tkmcollector.Requests.{DatabaseAction, Request}
use tkmcollector.Exec.{Effect, Env}
use tkmcollector.ControlClient
use tkmcollector.Database.{State}
use tkmcollector.MonitorConnection
use tkmcollector.MonitorDevice.DataSource.{DataSource}
use tkmcollector.Query.Schema.{Backend}
use tkmcollector.System.{
  System, DatabaseHandler, Work, dispatches, stores, serves, Event, asks_for, tells, ticks, drops,
  Reach, start, works, hears, absorb, asks, set_device, idle, IsLaunched, launched,
}
use tkmcollector.System.Measure.{
  Costs, cost_of, pending, pending-absorb, sum, sum-append, pushed, of_device,
}
use tkmcollector.System.Sound.{faults}
use tkmcollector.System.Sound.Outside.{
  command_sound, message_sound, lane_sound, loss_sound, start_sound,
}
use tkmcollector.System.Sound.Queues.{dispatcher_sound, device_sound}

-- The database pushes sound requests.
abbrev pub IsSound : {Db L C : Type 0} → DatabaseHandler Db L C → Type 0
IsSound {Db} {L} {C} handler =
    (env : Env) (now : ℕ) (rq : Request DatabaseAction) (s : State Db L C)
    → Costs (pushed faults) 0 (handler env now rq s)

module _ {Db L C : Type 0} where
  -- A run that pushes sound requests leaves sound queues sound.
  faults-absorb :
      (es : List Effect) (st : State Db L C) (s t : System Db L C)
      → t ≡ absorb es st s
      → sum (pushed faults) es ≡ 0
      → pending faults s ≡ 0
      → pending faults t ≡ 0
  faults-absorb es st s t e h k =
      omega (arith, ap (pending faults) e, pending-absorb faults es st s)

module _ (D : SafeList DataSource) (S : SafeList ℕ) {Db : Type 0}
    (handler : DatabaseHandler Db D.Carrier S.Carrier) (sound : IsSound handler) where
  pub Work-faults :
      {s t : System Db D.Carrier S.Carrier}
      → Work D S handler s t
      → pending faults s ≡ 0
      → pending faults t ≡ 0
  Work-faults {s} {t} (dispatches env rq rest b m es taking here ran e) k =
      faults-absorb es (record s.state { manager = m }) (record s { dispatcher = rest }) t e
        (cost_of (pushed faults) _ _ b m es
          (dispatcher_sound S env rq s.state.manager
            (omega (arith, ap (sum faults.dispatcher) here))).0
          ran)
        (omega (arith, ap (sum faults.dispatcher) here))
  Work-faults {s} {t} (stores env now rq rest b st es taking here ran e) k =
      faults-absorb es st (record s { database = rest }) t e
        (cost_of (pushed faults) _ _ b st es (sound env now rq s.state) ran)
        (omega (arith, ap (sum faults.database) here))
  Work-faults {s} {t} (serves env hash rq a before after b d es taking here first found ran e) k =
      let split = sum-append (of_device faults) before ((hash, rq) ∷ after) in
      let joined = sum-append (of_device faults) before after in
      faults-absorb es (set_device a d s.state) (record s { devices = before ++ after }) t e
        (cost_of (pushed faults) _ _ b d es
          (device_sound D env rq (s.state.manager.device a)
            (omega (arith, ap (sum (of_device faults)) here, split)))
          ran)
        (omega (arith, ap (sum (of_device faults)) here, split, joined))

  module _ {P Q : Type 0} (commands : ControlClient.Unpack P)
      (messages : MonitorConnection.Unpack Q) (pid : ℕ) where
    Event-faults :
        {s t : System Db D.Carrier S.Carrier}
        → Event D S handler commands messages pid s t
        → pending faults s ≡ 0
        → pending faults t ≡ 0
    Event-faults {s} {t} (asks_for env c rq b es taking ran e) k =
        faults-absorb es s.state (record s { commands = asks c rq.type ++ s.commands }) t e
          (cost_of (pushed faults) _ _ b s.state es
            (command_sound commands env c rq rq.type s.state) ran)
          k
    Event-faults {s} {t} (tells hash x b es ran e) k =
        faults-absorb es s.state s t e
          (cost_of (pushed faults) _ _ b s.state es (message_sound messages pid hash x s.state) ran)
          k
    Event-faults {s} {t} (ticks env lane a b d es ran e) k =
        faults-absorb es (set_device a d s.state) s t e
          (cost_of (pushed faults) _ _ b d es (lane_sound D env lane (s.state.manager.device a))
            ran)
          k
    Event-faults {s} {t} (drops a u d es ran e) k =
        faults-absorb es (set_device a d s.state) s t e
          (cost_of (pushed faults) _ _ u d es (loss_sound D (s.state.manager.device a)) ran) k

    launched-faults :
        {b : Backend} {s : System Db D.Carrier S.Carrier} → IsLaunched b s → pending faults s ≡ 0
    launched-faults {s = s} (launched env w o erase u es st ran e) =
        faults-absorb es st (idle st) s e
          (cost_of (pushed faults) _ _ u _ es (start_sound env w o erase none) ran) (omega arith)

    pub Reach-faults :
        {b : Backend} {s t : System Db D.Carrier S.Carrier}
        → IsLaunched b s
        → Reach D S handler commands messages pid s t
        → pending faults t ≡ 0
    Reach-faults l start = launched-faults l
    Reach-faults l (works r w) = Work-faults w (Reach-faults l r)
    Reach-faults l (hears r w) = Event-faults w (Reach-faults l r)

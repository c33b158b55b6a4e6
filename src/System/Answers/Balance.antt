-- ===== src/System/Answers/Balance.antt =====
-- Every command is answered once: no answer is lost or made up between a client's command and its
-- status, whichever way the queues of the collector interleave.
use tkmcollector.Prelude.{ℕ, ◌+◌, ◌≡◌, arith, refl, ap, none, some, List, [], ◌∷◌, ◌++◌}
use tkmcollector.SafeList.{SafeList}
use tkmcollector.Requests.{Client, DatabaseAction, Request}
use tkmcollector.Exec.{Effect, Env}
use tkmcollector.ControlClient
use tkmcollector.Database.{State}
use tkmcollector.MonitorConnection
use tkmcollector.MonitorDevice.DataSource.{DataSource}
use tkmcollector.System.{
  System, DatabaseHandler, Work, dispatches, stores, serves, Event, asks_for, tells, ticks, drops,
  Reach, start, works, hears, absorb, asks, set_device, idle, IsLaunched, launched,
}
use tkmcollector.System.Measure.{cost_of, pending-absorb, sum, sum-append, pushed, of_device}
use tkmcollector.System.Answers.{
  accounted, answered, asked, database_owes, dispatcher_owes, device_owes, owed, owes, settled,
  Settles,
}
use tkmcollector.System.Answers.Outside.{
  command-Settles, message-Settles, lane-Settles, loss-Settles, start-Settles,
}
use tkmcollector.Query.Schema.{Backend}
use tkmcollector.System.Answers.Dispatcher.{dispatcher-Settles}
use tkmcollector.System.Answers.Device.{device-Settles}

sum-settled :
    (c : Client) (es : List Effect)
    → sum (settled c) es ≡ sum (pushed (owes c)) es + sum (answered c) es
sum-settled c [] = omega arith
sum-settled c (e ∷ es) = omega (arith, sum-settled c es)

module _ {Db L C : Type 0} (c : Client) where
  accounted-absorb :
      (n : ℕ) (es : List Effect) (st : State Db L C) (s : System Db L C)
      → sum (settled c) es ≡ n
      → accounted c (absorb es st s) ≡ accounted c s + n
  accounted-absorb n es st s h = omega (
    arith,
    pending-absorb (owes c) es st s,
    sum-append (answered c) s.history es,
    sum-settled c es,
  )

-- The database owes an answer where the request does, and passes it on.
abbrev pub IsHonest : {Db L C : Type 0} → DatabaseHandler Db L C → Type 0
IsHonest {Db} {L} {C} handler =
    (c : Client) (env : Env) (now : ℕ) (rq : Request DatabaseAction) (s : State Db L C)
    → Settles c (database_owes c rq.action rq.client) (handler env now rq s)

module _ (D : SafeList DataSource) (S : SafeList ℕ) {Db : Type 0}
    (handler : DatabaseHandler Db D.Carrier S.Carrier) (honest : IsHonest handler)
    (c : Client) where
  Work-accounted :
      {s t : System Db D.Carrier S.Carrier}
      → Work D S handler s t
      → (accounted c t ≡ accounted c s) × (t.commands ≡ s.commands)
  Work-accounted {s} (dispatches env rq rest b m es taking here ran e) = (
    omega (
      arith,
      ap (accounted c) e,
      ap (sum (owes c).dispatcher) here,
      accounted-absorb c (dispatcher_owes c rq.action rq.client) es (record s.state { manager = m })
          (record s { dispatcher = rest })
          (cost_of (settled c) _ _ b m es (dispatcher-Settles S c env rq s.state.manager) ran),
    ),
    ap (λ u. u.commands) e,
  )
  Work-accounted {s} (stores env now rq rest b st es taking here ran e) = (
    omega (
      arith,
      ap (accounted c) e,
      ap (sum (owes c).database) here,
      accounted-absorb c (database_owes c rq.action rq.client) es st (record s { database = rest })
          (cost_of (settled c) _ _ b st es (honest c env now rq s.state) ran),
    ),
    ap (λ u. u.commands) e,
  )
  Work-accounted {s} (serves env hash rq a before after b d es taking here first found ran e) = (
    omega (
      arith,
      ap (accounted c) e,
      ap (sum (of_device (owes c))) here,
      sum-append (of_device (owes c)) before ((hash, rq) ∷ after),
      sum-append (of_device (owes c)) before after,
      accounted-absorb c (device_owes c rq.action rq.client) es (set_device a d s.state)
          (record s { devices = before ++ after })
          (cost_of (settled c) _ _ b d es (device-Settles D c env rq (s.state.manager.device a))
            ran),
    ),
    ap (λ u. u.commands) e,
  )

  module _ {P Q : Type 0} (commands : ControlClient.Unpack P)
      (messages : MonitorConnection.Unpack Q) (pid : ℕ) where
    Event-balance :
        {s t : System Db D.Carrier S.Carrier}
        → Event D S handler commands messages pid s t
        → accounted c t + asked c s ≡ accounted c s + asked c t
    Event-balance {s} (asks_for env d rq b es taking ran e) = omega (
      arith,
      ap (accounted c) e,
      ap (asked c) e,
      sum-append (λ x. owed c (some x)) (asks d rq.type) s.commands,
      accounted-absorb c _ es s.state (record s { commands = asks d rq.type ++ s.commands })
          (cost_of (settled c) _ _ b s.state es
            (command-Settles c commands env d rq rq.type s.state) ran),
    )
    Event-balance {s} (tells hash x b es ran e) = omega (
      arith,
      ap (accounted c) e,
      ap (asked c) e,
      accounted-absorb c 0 es s.state s (
          cost_of (settled c) _ _ b s.state es (message-Settles c messages pid hash x s.state) ran),
    )
    Event-balance {s} (ticks env lane a b d es ran e) = omega (
      arith,
      ap (accounted c) e,
      ap (asked c) e,
      accounted-absorb c 0 es (set_device a d s.state) s (
          cost_of (settled c) _ _ b d es (lane-Settles c D env lane (s.state.manager.device a))
            ran),
    )
    Event-balance {s} (drops a u d es ran e) = omega (
      arith,
      ap (accounted c) e,
      ap (asked c) e,
      accounted-absorb c 0 es (set_device a d s.state) s
          (cost_of (settled c) _ _ u d es (loss-Settles c D (s.state.manager.device a)) ran),
    )

    pub Reach-balance :
        {s t : System Db D.Carrier S.Carrier}
        → Reach D S handler commands messages pid s t
        → accounted c t + asked c s ≡ accounted c s + asked c t
    Reach-balance start = refl
    Reach-balance {s} (works r w) = omega (
      arith,
      Reach-balance r,
      (Work-accounted w).0,
      ap (sum (λ x. owed c (some x))) (Work-accounted w).1,
    )
    Reach-balance {s} (hears r w) = omega (arith, Reach-balance r, Event-balance w)

    launched-balance :
        {b : Backend} {s : System Db D.Carrier S.Carrier}
        → IsLaunched b s
        → (accounted c s ≡ 0) × (asked c s ≡ 0)
    launched-balance (launched env w o erase u es st ran e) = (
      omega (
        arith,
        ap (accounted c) e,
        accounted-absorb c 0 es st (idle st)
            (cost_of (settled c) _ _ u _ es (start-Settles c env w o erase none) ran),
      ),
      ap (asked c) e,
    )

    -- What the commands asked for since the set-up is what waits and what was sent.
    pub Reach-asked :
        {b : Backend} {s t : System Db D.Carrier S.Carrier}
        → IsLaunched b s
        → Reach D S handler commands messages pid s t
        → asked c t ≡ accounted c t
    Reach-asked l r = omega (arith, Reach-balance r, (launched-balance l).0, (launched-balance l).1)

-- ===== src/System/Drain/Ends.antt =====
-- Left to itself the collector comes to rest: its handlers cannot keep each other busy for ever.
use mathlib.Core.WellFounded.{Acc}
use tkmcollector.Prelude.{
  ℕ, zero, suc, ◌+◌, ◌<◌, ◌≤◌, ◌≡◌, ◌⊎◌, inl, inr, arith, ap, List, ◌∷◌, ◌++◌, subst,
}
use tkmcollector.Outcome.{Outcome, ok}
use tkmcollector.SafeList.{SafeList}
use tkmcollector.Messages.Payload.{UnpackData}
use tkmcollector.Requests.{DatabaseAction, Request}
use tkmcollector.Exec.{Effect, Env}
use tkmcollector.Database.{State}
use tkmcollector.MonitorDevice.DataSource.{DataSource}
use tkmcollector.System.{
  System, DatabaseHandler, Work, dispatches, stores, serves, set_device, Works, still, busy,
}
use tkmcollector.System.Measure.{
  Measure, pending, pending-absorb, pushed, sum, sum-append, of_device,
}
use tkmcollector.System.Store.{Store, Db, handler}
use tkmcollector.System.Drain.{
  Eases, EasesFor, cleans, database_effort, device-Eases, device_effort, dispatcher-Eases,
  dispatcher_effort, effort, is_clean,
}
use tkmcollector.System.Drain.Postgres.{postgres-EasesFor}
use tkmcollector.System.Drain.Sqlite.{sqlite-EasesFor}

-- Fewer CleanSessions wait, or as many and what waits comes to less.
abbrev pub IsLess : {Db L C : Type 0} → System Db L C → System Db L C → Type 0
IsLess t s =
    (pending cleans t < pending cleans s)
    ⊎ ((pending cleans t ≡ pending cleans s) × (pending effort t < pending effort s))

-- What a handler's run pushes, when it returned.
eased_by :
    {A S : Type 0} (n : ℕ) (o : Outcome (A × S × List Effect)) (a : A) (s : S) (es : List Effect)
    → Eases n o
    → o ≡ ok (a, s, es)
    → (sum (pushed cleans) es ≡ 0) × (sum (pushed effort) es < n)
eased_by n o a s es h e = subst (Eases n) e h

-- A database request is CleanSessions, or has pushed less than it came to.
stored_by :
    {A S : Type 0} (a : DatabaseAction) (o : Outcome (A × S × List Effect)) (x : A) (s : S)
    (es : List Effect)
    → EasesFor a o
    → o ≡ ok (x, s, es)
    → (sum (pushed cleans) es ≡ 0)
      × ((is_clean a ≡ 1) ⊎ ((is_clean a ≡ 0) × (sum (pushed effort) es < database_effort a)))
stored_by DatabaseAction.clean_sessions o x s es h e =
    ground (arith, subst (EasesFor DatabaseAction.clean_sessions) e h)
stored_by a o x s es h e = ground (arith, subst (EasesFor a) e h)

abbrev pub IsEasing : {Db L C : Type 0} → DatabaseHandler Db L C → Type 0
IsEasing {Db} {L} {C} handler =
    (env : Env) (now : ℕ) (rq : Request DatabaseAction) (s : State Db L C)
    → EasesFor rq.action (handler env now rq s)

module _ (D : SafeList DataSource) (S : SafeList ℕ) {Db : Type 0}
    (handler : DatabaseHandler Db D.Carrier S.Carrier) (easing : IsEasing handler) where
  Work-IsLess : {s t : System Db D.Carrier S.Carrier} → Work D S handler s t → IsLess t s
  Work-IsLess {s} (dispatches env rq rest b m es taking here ran e) =
      let h =
        eased_by (dispatcher_effort rq.action) _ b m es (dispatcher-Eases S env rq s.state.manager)
          ran in
      let c =
        pending-absorb cleans es (record s.state { manager = m })
          (record s { dispatcher = rest }) in
      let w =
        pending-absorb effort es (record s.state { manager = m })
          (record s { dispatcher = rest }) in
      inr (
        omega (arith, ap (pending cleans) e, ap (sum cleans.dispatcher) here, c, h.0),
        omega (arith, ap (pending effort) e, ap (sum effort.dispatcher) here, w, h.1),
      )
  Work-IsLess {s} (stores env now rq rest b st es taking here ran e) =
      let h = stored_by rq.action _ b st es (easing env now rq s.state) ran in
      let c = pending-absorb cleans es st (record s { database = rest }) in
      let w = pending-absorb effort es st (record s { database = rest }) in
      elim h.1 [
        | inl l ↦
            inl (omega (arith, ap (pending cleans) e, ap (sum cleans.database) here, c, h.0, l))
        | inr r ↦ inr (
          omega (arith, ap (pending cleans) e, ap (sum cleans.database) here, c, h.0, r.0),
          omega (arith, ap (pending effort) e, ap (sum effort.database) here, w, r.1),
        )
      ]
  Work-IsLess {s} (serves env hash rq a before after b d es taking here first found ran e) =
      let h =
        eased_by (device_effort rq.action) _ b d es
          (device-Eases D env rq (s.state.manager.device a)) ran in
      let c =
        pending-absorb cleans es (set_device a d s.state)
          (record s { devices = before ++ after }) in
      let w =
        pending-absorb effort es (set_device a d s.state)
          (record s { devices = before ++ after }) in
      let split = λ (m : Measure). sum-append (of_device m) before ((hash, rq) ∷ after) in
      let joined = λ (m : Measure). sum-append (of_device m) before after in
      inr (
        omega (
          arith,
          ap (pending cleans) e,
          ap (sum (of_device cleans)) here,
          c,
          h.0,
          split cleans,
          joined cleans,
        ),
        omega (
          arith,
          ap (pending effort) e,
          ap (sum (of_device effort)) here,
          w,
          h.1,
          split effort,
          joined effort,
        ),
      )

  -- What waits is at most `k`, and at most `n` of it are CleanSessions.
  Acc_below :
      (n k : ℕ) (s : System Db D.Carrier S.Carrier)
      → pending cleans s ≤ n
      → pending effort s ≤ k
      → Acc (λ t u. Work D S handler u t) s
  Acc_below zero zero s h g = Acc.intro s λ t w. absurd (ground (arith, Work-IsLess w))
  Acc_below zero (suc k) s h g = Acc.intro s λ t w. elim (Work-IsLess w) [
    | inl l ↦ absurd (omega arith)
    | inr r ↦ Acc_below zero k t (omega arith) (omega arith)
  ]
  Acc_below (suc n) zero s h g = Acc.intro s λ t w. elim (Work-IsLess w) [
    | inl l ↦ Acc_below n (pending effort t) t (omega arith) (omega arith)
    | inr r ↦ absurd (omega arith)
  ]
  Acc_below (suc n) (suc k) s h g = Acc.intro s λ t w. elim (Work-IsLess w) [
    | inl l ↦ Acc_below n (pending effort t) t (omega arith) (omega arith)
    | inr r ↦ Acc_below (suc n) k t (omega arith) (omega arith)
  ]

  Works-effort :
      {s : System Db D.Carrier S.Carrier} {n : ℕ} {t : System Db D.Carrier S.Carrier}
      → Works D S handler s n t
      → pending cleans s ≡ 0
      → (pending cleans t ≡ 0) × (n + pending effort t ≤ pending effort s)
  Works-effort still h = (h, omega arith)
  Works-effort (busy r w) h =
      let (none, below) = Works-effort r h in
      elim (Work-IsLess w) [
        | inl l ↦ absurd (omega arith)
        | inr (same, less) ↦ (omega arith, omega arith)
      ]

module _ (D : SafeList DataSource) (S : SafeList ℕ) (unpack : UnpackData) where
  handler-IsEasing : (x : Store) → IsEasing (handler D S unpack x)
  handler-IsEasing (Store.sqlite e) env now rq s = sqlite-EasesFor e D S unpack env now rq s
  handler-IsEasing (Store.postgres p o) env now rq s = postgres-EasesFor p o D S unpack env now rq s

  -- Over either database and from any state, the handlers of the queues cannot run one after another
  -- for ever, in whichever order the queues are served: without an event from outside the collector
  -- comes to rest.
  pub Work-Acc :
      (x : Store) (s : System (Db x) D.Carrier S.Carrier)
      → Acc (λ t u. Work D S (handler D S unpack x) u t) s
  Work-Acc x s =
      Acc_below D S (handler D S unpack x) (handler-IsEasing x) (pending cleans s)
        (pending effort s) s (omega arith) (omega arith)

  -- Over either database, if no CleanSessions waits, then the handlers that run without an event from
  -- outside are at most as many as what waits comes to: at
  -- most 4 for a command, and 3 for a monitor's message.
  pub Works-bounded :
      (x : Store) {s t : System (Db x) D.Carrier S.Carrier} {n : ℕ}
      → Works D S (handler D S unpack x) s n t
      → pending cleans s ≡ 0
      → n + pending effort t ≤ pending effort s
  Works-bounded x r h = (Works-effort D S (handler D S unpack x) (handler-IsEasing x) r h).1

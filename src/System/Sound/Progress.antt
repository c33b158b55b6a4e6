-- ===== src/System/Sound/Progress.antt =====
-- The dispatcher and the database get through what they are asked.
use mathlib.Core.WellFounded.{Acc}
use tkmcollector.Prelude.{ℕ, suc, ◌≡◌, ◌⊎◌, inl, inr, refl, arith, ap, ◌∙◌, List, [], ◌∷◌}
use tkmcollector.Outcome.{
  Ending, Outcome, ok, throws, null_pointer, ending, returns, raises, crashes,
}
use tkmcollector.SafeList.{SafeList}
use tkmcollector.Messages.Payload.{UnpackData}
use tkmcollector.Requests.{DatabaseAction, Request}
use tkmcollector.Exec.{Env}
use tkmcollector.ControlClient
use tkmcollector.Database.{State}
use tkmcollector.Dispatcher
use tkmcollector.MonitorConnection
use tkmcollector.MonitorDevice.DataSource.{DataSource}
use tkmcollector.Postgres.{connection_info}
use tkmcollector.Postgres.Handler.Endings.{connected, ending-postgres_handler}
use tkmcollector.Sqlite.Handler.Endings.{ending-sqlite_handler}
use tkmcollector.Sqlite.Reading.{reading}
use tkmcollector.Sqlite.Rows.Readable.{and_then}
use tkmcollector.System.{
  System, IsLaunched, IsTaking, Reach, Work, Works, busy, dispatches, stores, still,
}
use tkmcollector.System.Drain.Ends.{Work-Acc}
use tkmcollector.System.Measure.{pending, sum}
use tkmcollector.System.Sound.{faults, returns_of-fault_of}
use tkmcollector.System.Sound.Postgres.{postgres_sound}
use tkmcollector.System.Sound.Queues.{dispatcher_sound}
use tkmcollector.System.Sound.Reach.{IsSound, Reach-faults, Work-faults}
use tkmcollector.System.Sound.Sqlite.{sqlite_sound}
use tkmcollector.System.Store.{Store, Db, backend, handler}

-- What hinders the database from a request that is not malformed: rows of SQLite that cannot be read,
-- or a connection to PostgreSQL that is closed and throws when InitDatabase or Connect opens it again.
abbrev pub obstacle : (x : Store) → Db x → Request DatabaseAction → Ending
obstacle (Store.sqlite e) db rq = reading e db rq.action rq.bulk_data
obstacle (Store.postgres p o) db rq =
    connected (p.is_open db) (ending (p.connect (connection_info o))) rq.action returns

-- The handler ends in this way for each of the requests.
abbrev pub AllEnd : {R B : Type 0} → (R → Outcome B) → (R → Ending) → List R → Type 0
AllEnd h f [] = Unit {0}
AllEnd h f (rq ∷ rqs) = (ending (h rq) ≡ f rq) × AllEnd h f rqs

-- Nothing waits, or the request in front is hindered.
abbrev pub IsStopped : {R : Type 0} → (R → Ending) → List R → Type 0
IsStopped f [] = Unit {0}
IsStopped f (rq ∷ rqs) = ¬ (f rq ≡ returns)

AllEnd-of_sum :
    {R B : Type 0} (h : R → Outcome B) (e : R → Ending) (f : R → ℕ)
    → ((rq : R) → f rq ≡ 0 → ending (h rq) ≡ e rq)
    → (rqs : List R) → sum f rqs ≡ 0
    → AllEnd h e rqs
AllEnd-of_sum h e f r [] k = tt
AllEnd-of_sum h e f r (rq ∷ rqs) k = (r rq (omega arith), AllEnd-of_sum h e f r rqs (omega arith))

Ending-cases : (e : Ending) → (e ≡ returns) ⊎ (¬ (e ≡ returns))
Ending-cases returns = inl refl
Ending-cases raises = inr (λ h. cc)
Ending-cases crashes = inr (λ h. cc)

returned : {A : Type 0} (o : Outcome A) → ending o ≡ returns → (a : A) × (o ≡ ok a)
returned (ok a) h = (a, refl)
returned (throws x) h = cc
returned null_pointer h = cc

List-cases : {A : Type 0} (xs : List A) → (xs ≡ []) ⊎ ((x : A) × (rest : List A) × (xs ≡ x ∷ rest))
List-cases [] = inl refl
List-cases (x ∷ rest) = inr (x, rest, refl)

module _ (D : SafeList DataSource) (S : SafeList ℕ) (unpack : UnpackData) where
  handler-IsSound : (x : Store) → IsSound (handler D S unpack x)
  handler-IsSound (Store.sqlite e) env now rq s = sqlite_sound e D S unpack env now rq s
  handler-IsSound (Store.postgres p o) env now rq s = postgres_sound p o D S unpack env now rq s

  -- The database handles a sound request, unless it is hindered.
  ending-handler :
      (x : Store) (env : Env) (now : ℕ) (s : State (Db x) D.Carrier S.Carrier)
      (rq : Request DatabaseAction)
      → faults.database rq ≡ 0
      → ending (handler D S unpack x env now rq s) ≡ obstacle x s.db rq
  ending-handler (Store.sqlite e) env now s rq k =
      ending-sqlite_handler e D S unpack env now rq s
      ∙ ap (λ w. and_then w (reading e s.db rq.action rq.bulk_data)) (returns_of-fault_of _ k)
  ending-handler (Store.postgres p o) env now s rq k =
      ending-postgres_handler p o D S unpack env now rq s
      ∙ ap (connected (p.is_open s.db) (ending (p.connect (connection_info o))) rq.action)
          (returns_of-fault_of _ k)

  module _ (x : Store) where
    module _ {P Q : Type 0} (commands : ControlClient.Unpack P)
        (messages : MonitorConnection.Unpack Q) (pid : ℕ) (env : Env) (now : ℕ) where
      -- In every state that the collector reaches after its set-up, over any engine or connection:
      -- whichever of the waiting requests the dispatcher handles, at any time and whatever the calls to
      -- the surroundings answer, its handler returns; and whichever the database handles, its handler
      -- ends as `obstacle` says. So no request is malformed, and there is nothing that makes the
      -- database throw but rows of SQLite whose numbers cannot be read, and an exception of
      -- PostgreSQL's connection that is opened again.
      pub Reach-AllEnd :
          {s t : System (Db x) D.Carrier S.Carrier}
          → IsLaunched (backend x) s
          → Reach D S (handler D S unpack x) commands messages pid s t
          → AllEnd
              (λ rq. Dispatcher.request_handler S env rq t.state.manager)
              (λ _. returns)
              t.dispatcher
            × AllEnd
                (λ rq. handler D S unpack x env now rq t.state)
                (obstacle x t.state.db)
                t.database
      Reach-AllEnd {t = t} l r =
          let k =
            Reach-faults D S (handler D S unpack x) (handler-IsSound x) commands messages pid l r in
          (
            AllEnd-of_sum _ _ faults.dispatcher
                (λ rq h. (dispatcher_sound S env rq t.state.manager h).1) t.dispatcher
                (omega arith),
            AllEnd-of_sum _ _ faults.database (λ rq h. ending-handler x env now t.state rq h)
                t.database (omega arith),
          )

    -- One more run, at the beginning.
    Works-before :
        {s t : System (Db x) D.Carrier S.Carrier} {n : ℕ} {u : System (Db x) D.Carrier S.Carrier}
        → Work D S (handler D S unpack x) s t
        → Works D S (handler D S unpack x) t n u
        → Works D S (handler D S unpack x) s (suc n) u
    Works-before w still = busy still w
    Works-before w (busy r v) = busy (Works-before w r) v

    -- After as many runs the dispatcher's queue is empty, and the database's is empty or hindered.
    pub record Drained (s : System (Db x) D.Carrier S.Carrier) : Type 0 where
      pub runs : ℕ
      pub last : System (Db x) D.Carrier S.Carrier
      pub path : Works D S (handler D S unpack x) s runs last
      pub dispatcher_empty : last.dispatcher ≡ []
      pub database_stops : IsStopped (obstacle x last.state.db) last.database

    Drained-before :
        {s t : System (Db x) D.Carrier S.Carrier}
        → Work D S (handler D S unpack x) s t
        → Drained t
        → Drained s
    Drained-before w d = record {
      runs = suc d.runs;
      last = d.last;
      path = Works-before w d.path;
      dispatcher_empty = d.dispatcher_empty;
      database_stops = d.database_stops;
    }

    module _ (env : Env) (taking : IsTaking env) (now : ℕ) where
      -- Where the dispatcher or the database has something to do, it can do it.
      next_work :
          (s : System (Db x) D.Carrier S.Carrier)
          → pending faults s ≡ 0
          → Drained s
            ⊎ ((t : System (Db x) D.Carrier S.Carrier) × Work D S (handler D S unpack x) s t)
      next_work s k = elim (List-cases s.dispatcher) [
        | inr (rq, rest, here) ↦
            let ((b, m, es), ran) =
              returned (Dispatcher.request_handler S env rq s.state.manager)
                (dispatcher_sound S env rq s.state.manager
                  (omega (arith, ap (sum faults.dispatcher) here))).1 in
            inr (_, dispatches env rq rest b m es taking here ran refl)
        | inl none ↦ elim (List-cases s.database) [
          | inr (rq, rest, here) ↦ elim (Ending-cases (obstacle x s.state.db rq)) [
            | inl free ↦
                let ((b, st, es), ran) = returned (handler D S unpack x env now rq s.state) (
                  ending-handler x env now s.state rq (omega (arith, ap (sum faults.database) here))
                  ∙ free) in
                inr (_, stores env now rq rest b st es taking here ran refl)
            | inr hindered ↦ inl (record {
              runs = 0;
              last = s;
              path = still;
              dispatcher_empty = none;
              database_stops = rw here hindered;
            })
          ]
          | inl none' ↦ inl (record {
            runs = 0;
            last = s;
            path = still;
            dispatcher_empty = none;
            database_stops = rw none' tt;
          })
        ]
      ]

      drain :
          (s : System (Db x) D.Carrier S.Carrier)
          → Acc (λ t u. Work D S (handler D S unpack x) u t) s
          → pending faults s ≡ 0
          → Drained s
      drain s (Acc.intro _ smaller) k = elim (next_work s k) [
        | inl d ↦ d
        | inr (t, w) ↦
            Drained-before w (
              drain t (smaller t w)
                (Work-faults D S (handler D S unpack x) (handler-IsSound x) w k))
      ]

      module _ {P Q : Type 0} (commands : ControlClient.Unpack P)
          (messages : MonitorConnection.Unpack Q) (pid : ℕ) where
        -- With queues that take what is pushed, from every state that the collector reaches after its
        -- set-up, over any engine or connection, some runs of the queues' handlers lead to one in which
        -- nothing waits for the dispatcher, and either nothing waits for the database or the request in
        -- front there is one that `obstacle` hinders.
        pub Reach-Drained :
            {s t : System (Db x) D.Carrier S.Carrier}
            → IsLaunched (backend x) s
            → Reach D S (handler D S unpack x) commands messages pid s t
            → Drained t
        Reach-Drained {t = t} l r =
            drain t (Work-Acc D S unpack x t) (
              Reach-faults D S (handler D S unpack x) (handler-IsSound x) commands messages pid l r)

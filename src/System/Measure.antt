-- ===== src/System/Measure.antt =====
-- Sums over what waits in the queues and over what a handler does.
use tkmcollector.Prelude.{ℕ, String, ◌+◌, ◌≡◌, subst, List, [], ◌∷◌, ◌++◌, arith}
use tkmcollector.Requests.{DatabaseAction, DeviceAction, DispatcherAction, Request}
use tkmcollector.Exec.{Effect, Exec, ◌>>=◌, after}
use tkmcollector.Outcome.{Outcome, ok, throws, null_pointer, Ensures}
use tkmcollector.Exec.Trace.{database_requests, dispatcher_requests}
use tkmcollector.Database.{State}
use tkmcollector.System.{System, absorb, addressed}

-- How much each request counts.
pub record Measure : Type 0 where
  pub dispatcher : Request DispatcherAction → ℕ
  pub database : Request DatabaseAction → ℕ
  pub device : Request DeviceAction → ℕ

abbrev pub sum {ℓ} : {A : Type ℓ} → (A → ℕ) → List A → ℕ
sum f [] = 0
sum f (x ∷ xs) = f x + sum f xs

pub sum-append {ℓ} :
    {A : Type ℓ} (f : A → ℕ) (xs ys : List A) → sum f (xs ++ ys) ≡ sum f xs + sum f ys
sum-append f [] ys = omega arith
sum-append f (x ∷ xs) ys = omega (arith, sum-append f xs ys)

-- What an effect adds to the queues, by a measure.
abbrev pub pushed : Measure → Effect → ℕ
pushed m (Effect.push_dispatcher rq) = m.dispatcher rq
pushed m (Effect.push_database rq) = m.database rq
pushed m (Effect.push_device hash rq) = m.device rq
pushed m _ = 0

abbrev pub of_device : Measure → String × Request DeviceAction → ℕ
of_device m (hash, rq) = m.device rq

-- What waits in all the queues.
abbrev pub pending : {Db L C : Type 0} → Measure → System Db L C → ℕ
pending m s =
    sum m.dispatcher s.dispatcher + sum m.database s.database + sum (of_device m) s.devices

module _ (m : Measure) where
  pub sum-pushed :
      (es : List Effect)
      → sum (pushed m) es
        ≡ sum m.dispatcher (dispatcher_requests es)
          + sum m.database (database_requests es)
          + sum (of_device m) (addressed es)
  sum-pushed [] = omega arith
  sum-pushed (Effect.push_dispatcher rq ∷ es) = omega (arith, sum-pushed es)
  sum-pushed (Effect.push_database rq ∷ es) = omega (arith, sum-pushed es)
  sum-pushed (Effect.push_device hash rq ∷ es) = omega (arith, sum-pushed es)
  sum-pushed (e ∷ es) = omega (arith, sum-pushed es)

  -- The queues hold what they held and what was pushed.
  pub pending-absorb :
      {Db L C : Type 0} (es : List Effect) (st : State Db L C) (s : System Db L C)
      → pending m (absorb es st s) ≡ pending m s + sum (pushed m) es
  pending-absorb es st s = omega (
    arith,
    sum-pushed es,
    sum-append m.dispatcher s.dispatcher (dispatcher_requests es),
    sum-append m.database s.database (database_requests es),
    sum-append (of_device m) s.devices (addressed es),
  )

-- A run that returns has effects that sum up to `n`.
abbrev pub Costs : {A S : Type 0} → (Effect → ℕ) → ℕ → Outcome (A × S × List Effect) → Type 0
Costs f n = Ensures λ (_, _, es). sum f es ≡ n

module _ (f : Effect → ℕ) where
  after-Costs :
      {B S : Type 0} (es : List Effect) (k n : ℕ) (o : Outcome (B × S × List Effect))
      → sum f es ≡ k
      → Costs f n o
      → Costs f (k + n) (after es o)
  after-Costs es k n (ok (b, s, fs)) h g = omega (arith, sum-append f es fs)
  after-Costs es k n (throws x) h g = tt
  after-Costs es k n null_pointer h g = tt

  bind-Costs :
      {A B S : Type 0} (k n : ℕ) (o : Outcome (A × S × List Effect)) (next : A → Exec S B)
      → Costs f k o
      → ((a : A) (s : S) → Costs f n (next a s))
      → Costs f (k + n) (elim o as (λ _. Outcome (B × S × List Effect)) [
        | ok (a, s', es) ↦ after es (next a s')
        | throws x ↦ throws x
        | null_pointer ↦ null_pointer
      ])
  bind-Costs k n (ok (a, s, es)) next h g = after-Costs es k n (next a s) h (g a s)
  bind-Costs k n (throws x) next h g = tt
  bind-Costs k n null_pointer next h g = tt

  -- The effects of a sequence sum up to those of its parts.
  pub >>=-Costs :
      {A B S : Type 0} (k n : ℕ) (m : Exec S A) (s : S) (next : A → Exec S B)
      → Costs f k (m s)
      → ((a : A) (s' : S) → Costs f n (next a s'))
      → Costs f (k + n) ((m >>= next) s)
  >>=-Costs k n m s next = bind-Costs k n (m s) next

-- A run that came to a value has the effects that it costs.
pub cost_of :
    {A S : Type 0} (f : Effect → ℕ) (n : ℕ) (o : Outcome (A × S × List Effect)) (a : A) (s : S)
    (es : List Effect)
    → Costs f n o
    → o ≡ ok (a, s, es)
    → sum f es ≡ n
cost_of f n o a s es h e = subst (Costs f n) e h

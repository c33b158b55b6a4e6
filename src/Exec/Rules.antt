-- ===== src/Exec/Rules.antt =====
-- A rule for the total correctness of a sequence of calls.
use tkmcollector.Prelude.{List, ◌++◌, ◌≡◌, refl, arith}
use tkmcollector.Outcome.{Outcome, ok, throws, null_pointer, Returns, ending, returns}
use tkmcollector.Exec.{Exec, Effect, ◌>>=◌, after}

after-Returns :
    {S B : Type 0} (Q : B × S × List Effect → Type 0) (es : List Effect)
    (o : Outcome (B × S × List Effect))
    → Returns (λ (b, s, fs). Q (b, s, es ++ fs)) o
    → Returns Q (after es o)
after-Returns Q es (ok (b, s, fs)) h = h
after-Returns Q es (throws x) h = h
after-Returns Q es null_pointer h = h

bind_Returns :
    {S A B : Type 0} (P : A × S × List Effect → Type 0) (Q : B × S × List Effect → Type 0)
    (o : Outcome (A × S × List Effect)) (f : A → Exec S B)
    → Returns P o
    → ((a : A) (s' : S) (es : List Effect)
        → P (a, s', es)
        → Returns (λ (b, s'', fs). Q (b, s'', es ++ fs)) (f a s'))
    → Returns Q (elim o [
      | ok (a, s', es) ↦ after es (f a s')
      | throws x ↦ throws x
      | null_pointer ↦ null_pointer
    ])
bind_Returns P Q (ok (a, s', es)) f h k = after-Returns Q es (f a s') (k a s' es h)
bind_Returns P Q (throws x) f h k = h
bind_Returns P Q null_pointer f h k = h

-- A sequence returns with `Q` if its first part returns with `P`, and from there the rest returns
-- with what `Q` says of all the effects.
pub >>=-Returns :
    {S A B : Type 0} (P : A × S × List Effect → Type 0) (Q : B × S × List Effect → Type 0)
    (m : Exec S A) (s : S) (f : A → Exec S B)
    → Returns P (m s)
    → ((a : A) (s' : S) (es : List Effect)
        → P (a, s', es)
        → Returns (λ (b, s'', fs). Q (b, s'', es ++ fs)) (f a s'))
    → Returns Q ((m >>= f) s)
>>=-Returns P Q m s f = bind_Returns P Q (m s) f

ends_of_parts :
    {S A B : Type 0} (o : Outcome (A × S × List Effect)) (f : A → Exec S B)
    → ((a : A) (s : S) → ending (f a s) ≡ returns)
    → ending (elim o as (λ _. Outcome (B × S × List Effect)) [
      | ok (a, s', es) ↦ after es (f a s')
      | throws x ↦ throws x
      | null_pointer ↦ null_pointer
    ])
      ≡ ending o
ends_of_parts (ok (a, s, es)) f k = ground (arith, k a s)
ends_of_parts (throws x) f k = refl
ends_of_parts null_pointer f k = refl

-- A sequence ends as its first part does, if the rest returns.
pub >>=_ends :
    {S A B : Type 0} (m : Exec S A) (s : S) (f : A → Exec S B)
    → ((a : A) (s' : S) → ending (f a s') ≡ returns)
    → ending ((m >>= f) s) ≡ ending (m s)
>>=_ends m s f = ends_of_parts (m s) f

-- ===== src/Run.antt =====
-- Stateful code with calls to its surroundings, which are recorded.
use tkmcollector.Prelude.{Bool, List, [], ◌∷◌, ◌++◌}
use tkmcollector.Outcome.{Outcome, ok, throws, null_pointer, Exception}

-- Code with calls `E` on a state `S`.
abbrev pub Run : Type 0 → Type 0 → Type 0 → Type 0
Run E S A = S → Outcome (A × S × List E)

-- The calls of a continuation come after those that were made.
abbrev pub after : {E S B : Type 0} → List E → Outcome (B × S × List E) → Outcome (B × S × List E)
after es (ok (b, s, fs)) = ok (b, s, es ++ fs)
after es (throws x) = throws x
after es null_pointer = null_pointer

module _ {E S A B : Type 0} where
  infixl 5 ◌>>=◌ ◌>>◌
  abbrev pub ◌>>=◌ : Run E S A → (A → Run E S B) → Run E S B
  ◌>>=◌ m f s = elim (m s) [
    | ok (a, s', es) ↦ after es (f a s')
    | throws x ↦ throws x
    | null_pointer ↦ null_pointer
  ]

  abbrev pub ◌>>◌ : Run E S A → Run E S B → Run E S B
  m >> n = m >>= λ _. n

module _ {E S A : Type 0} where
  abbrev pub pure : A → Run E S A
  pure a s = ok (a, s, [])

  abbrev pub gets : (S → A) → Run E S A
  gets f s = ok (f s, s, [])

  abbrev pub throw : Exception → Run E S A
  throw x s = throws x

  -- A call through a null pointer.
  abbrev pub fault : Run E S A
  fault s = null_pointer

  abbrev pub lift : Outcome A → Run E S A
  lift (ok a) s = ok (a, s, [])
  lift (throws x) s = throws x
  lift null_pointer s = null_pointer

module _ {E S : Type 0} where
  abbrev pub modify : (S → S) → Run E S (Unit {0})
  modify f s = ok (tt, f s, [])

  -- A call whose answer the code reads.
  abbrev pub call : (E → Bool) → E → Run E S Bool
  call env e s = ok (env e, s, e ∷ [])

  -- A call whose answer the code drops.
  abbrev pub perform : E → Run E S (Unit {0})
  perform e s = ok (tt, s, e ∷ [])

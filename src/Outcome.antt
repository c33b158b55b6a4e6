-- ===== src/Outcome.antt =====
-- What a C++ call comes to: it returns, it throws, or it goes through a null pointer.
use tkmcollector.Prelude.{String, ◌≡◌, refl}

pub data Exception : Type 0 where
  out_of_range bad_any_cast invalid_argument : Exception
  runtime_error : String → Exception

pub data Outcome {ℓ} (A : Type ℓ) : Type ℓ where
  ok : A → Outcome A
  throws : Exception → Outcome A
  null_pointer : Outcome A

-- How a call ends.
pub data Ending : Type 0 where
  returns raises crashes : Ending

abbrev pub ending : {A : Type 0} → Outcome A → Ending
ending (ok a) = returns
ending (throws x) = raises
ending null_pointer = crashes

-- What holds of the value, where a call returns.
abbrev pub Ensures : {A : Type 0} → (A → Type 0) → Outcome A → Type 0
Ensures P (ok a) = P a
Ensures P (throws x) = Unit {0}
Ensures P null_pointer = Unit {0}

-- The call returns, and this holds of the value.
abbrev pub Returns : {A : Type 0} → (A → Type 0) → Outcome A → Type 0
Returns P (ok a) = P a
Returns P (throws x) = ⊥
Returns P null_pointer = ⊥

pub Returns-mono :
    {A : Type 0} (P Q : A → Type 0) (o : Outcome A)
    → ((a : A) → P a → Q a)
    → Returns P o
    → Returns Q o
Returns-mono P Q (ok a) f h = f a h
Returns-mono P Q (throws x) f h = h
Returns-mono P Q null_pointer f h = h

-- A call returns with what holds of every value that it can return.
pub Returns-of_runs :
    {A : Type 0} (P : A → Type 0) (o : Outcome A)
    → ending o ≡ returns
    → ((a : A) → o ≡ ok a → P a)
    → Returns P o
Returns-of_runs P (ok a) h f = f a refl
Returns-of_runs P (throws x) h f = cc
Returns-of_runs P null_pointer h f = cc

-- The next call is made where this one returns.
abbrev pub bind : {A B : Type 0} → Outcome A → (A → Outcome B) → Outcome B
bind (ok a) f = f a
bind (throws x) f = throws x
bind null_pointer f = null_pointer

-- ===== src/Tests/PlainList.antt =====
-- A list whose changes take effect at once satisfies the laws of `SafeList`.
use tkmcollector.Prelude.{
  Bool, true, false, ◌≡◌, refl, List, [], ◌∷◌, ◌++◌, ◌||◌, not, select, arith,
}
use tkmcollector.SafeList.{SafeList, IsLawful, remove_each}

module _ {A : Type 0} (same : A → A → Bool) (same-refl : (a : A) → same a a ≡ true) where
  -- `remove` takes out every element that is the same.
  abbrev pub plain : SafeList A
  plain = record {
    Carrier = List A;
    empty = [];
    entries = λ l. l;
    append = λ l x. l ++ (x ∷ []);
    remove = λ l x. select (λ y. not (same x y)) l;
    commit = λ l. l;
  }

  abbrev pub among : A → List A → Bool
  among y [] = false
  among y (x ∷ xs) = same x y || among y xs

  abbrev pub Covered : List A → List A → Type 0
  Covered xs [] = Unit {0}
  Covered xs (y ∷ ys) = (among y xs ≡ true) × Covered xs ys

  Covered-cons : (x : A) (xs ys : List A) → Covered xs ys → Covered (x ∷ xs) ys
  Covered-cons x xs [] h = tt
  Covered-cons x xs (y ∷ ys) h = (ground (arith, h), Covered-cons x xs ys h.1)

  pub Covered-self : (xs : List A) → Covered xs xs
  Covered-self [] = tt
  Covered-self (x ∷ xs) = (ground (arith, same-refl x), Covered-cons x xs xs (Covered-self xs))

  Covered-select :
      (x : A) (xs ys : List A) → Covered (x ∷ xs) ys → Covered xs (select (λ y. not (same x y)) ys)
  unfolding select
  Covered-select x xs [] h = tt
  Covered-select x xs (y ∷ ys) h = ground (arith, h, Covered-select x xs ys h.1)

  pub remove_each-Covered : (xs ys : List A) → Covered xs ys → remove_each plain xs ys ≡ []
  unfolding remove_each
  remove_each-Covered [] [] h = refl
  remove_each-Covered [] (y ∷ ys) h = ground (arith, h)
  remove_each-Covered (x ∷ xs) ys h = remove_each-Covered xs _ (Covered-select x xs ys h)

  abbrev pub plain-IsLawful : IsLawful plain
  plain-IsLawful = record {
    IsCommitted = λ _. Unit {0};
    empty-IsCommitted = tt;
    commit-IsCommitted = λ _. tt;
    entries-empty = refl;
    commit_idle = λ _ _. refl;
    commit-append = λ _ _. refl;
    commit-remove_each = λ l _. remove_each-Covered l l (Covered-self l);
  }

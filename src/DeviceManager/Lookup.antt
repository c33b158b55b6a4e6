-- ===== src/DeviceManager/Lookup.antt =====
-- Which device a hash finds: the list refines a map from hashes to devices.
use tkmcollector.Prelude.{
  is_some, ℕ, String, Bool, true, false, ◌≡◌, refl, sym, ap, subst, ◌∙◌, Option, none, some, List,
  [], ◌∷◌, ◌++◌, if◌then◌else◌, str_eq, eq_iff, arith, inl, inr, ◌&&◌, not, Bool-cases,
}
use tkmcollector.Outcome.{Returns}
use tkmcollector.SafeList.{SafeList, IsLawful}
use tkmcollector.DeviceManager.{
  Manager, hash_at, found_hash, last_with, get_device, has_device, add_device,
}

module _ (hash_of : ℕ → String) (hash : String) where
  pub last_with-append :
      (xs : List ℕ) (a : ℕ) (found : Option ℕ)
      → last_with hash_of hash found (xs ++ (a ∷ []))
        ≡ (if str_eq (hash_of a) hash then some a else last_with hash_of hash found xs)
  unfolding last_with
  last_with-append [] a found = refl
  last_with-append (x ∷ xs) a found =
      last_with-append xs a (if str_eq (hash_of x) hash then some x else found)

  pub found_hash-last_with :
      (xs : List ℕ) (found : Option ℕ)
      → found_hash hash_of hash (is_some found) xs ≡ is_some (last_with hash_of hash found xs)
  unfolding found_hash last_with
  found_hash-last_with [] found = refl
  found_hash-last_with (x ∷ xs) found = elim (Bool-cases (str_eq (hash_of x) hash)) [
    | inl e ↦ rw (e, found_hash, last_with) (found_hash-last_with xs (some x))
    | inr e ↦ rw (e, found_hash, last_with) (found_hash-last_with xs found)
  ]

-- No two entries have one hash.
abbrev pub Lacks : (ℕ → String) → String → List ℕ → Type 0
Lacks hash_of hash [] = Unit {0}
Lacks hash_of hash (x ∷ xs) = (str_eq (hash_of x) hash ≡ false) × Lacks hash_of hash xs

abbrev pub Distinct : (ℕ → String) → List ℕ → Type 0
Distinct hash_of [] = Unit {0}
Distinct hash_of (x ∷ xs) = Lacks hash_of (hash_of x) xs × Distinct hash_of xs

module _ (hash_of : ℕ → String) where
  Lacks-of_found :
      (hash : String) (xs : List ℕ) (found : Bool)
      → found_hash hash_of hash found xs ≡ false
      → (found ≡ false) × Lacks hash_of hash xs
  unfolding found_hash
  Lacks-of_found hash [] found h = (h, tt)
  Lacks-of_found hash (x ∷ xs) found h =
      ground (arith, Lacks-of_found hash xs (if str_eq (hash_of x) hash then true else found) h)

  Lacks-append :
      (hash : String) (xs : List ℕ) (a : ℕ)
      → Lacks hash_of hash xs
      → str_eq (hash_of a) hash ≡ false
      → Lacks hash_of hash (xs ++ (a ∷ []))
  Lacks-append hash [] a l e = (e, tt)
  Lacks-append hash (x ∷ xs) a l e = (l.0, Lacks-append hash xs a l.1 e)

  Distinct-append :
      (xs : List ℕ) (a : ℕ)
      → Distinct hash_of xs
      → Lacks hash_of (hash_of a) xs
      → Distinct hash_of (xs ++ (a ∷ []))
  Distinct-append [] a d l = (tt, tt)
  Distinct-append (x ∷ xs) a d l = (
    Lacks-append (hash_of x) xs a d.0
        (ground (arith, l.0, eq_iff (hash_of x) (hash_of a), eq_iff (hash_of a) (hash_of x))),
    Distinct-append xs a d.1 l.1,
  )

module _ {L : Type 0} (S : SafeList ℕ) (law : IsLawful S) (m : Manager L S.Carrier) (a : ℕ)
    (settled : law.IsCommitted m.devices) where
  pub entries-append : S.entries (S.commit (S.append m.devices a)) ≡ S.entries m.devices ++ (a ∷ [])
  entries-append =
      law.commit-append m.devices a ∙ ap (λ z. z ++ (a ∷ [])) (law.commit_idle m.devices settled)

  -- addDevice answers whether the hash was new. A new device is then what its hash finds, and every
  -- other hash finds what it found before; a device whose hash is known changes nothing.
  pub get_device-add_device :
      Returns
        (λ (added, m', es).
          (added ≡ not (is_some (get_device S (hash_at m.device a) m)))
          × ((hash : String)
              → get_device S hash m' ≡ (
                  if added && str_eq (hash_at m.device a) hash
                  then some a
                  else get_device S hash m))
          × law.IsCommitted m'.devices
          × (m'.device ≡ m.device))
        (add_device S a m)
  unfolding add_device has_device get_device
  get_device-add_device =
      let hash_of = hash_at m.device in
      let entries = S.entries m.devices in
      let flag = found_hash-last_with hash_of (hash_of a) entries none in
      elim (Bool-cases (found_hash hash_of (hash_of a) false entries)) [
        | inl e ↦ rw e (ap not (sym e ∙ flag), λ hash. refl, settled, refl)
        | inr e ↦ rw e (
          ap not (sym e ∙ flag),
          λ hash.
              ap (last_with hash_of hash none) entries-append
              ∙ last_with-append hash_of hash entries a none,
          law.commit-IsCommitted (S.append m.devices a),
          refl,
        )
      ]

  -- addDevice keeps the hashes of the entries distinct.
  pub add_device-Distinct :
      Distinct (hash_at m.device) (S.entries m.devices)
      → Returns
          (λ (_, m', _). Distinct (hash_at m'.device) (S.entries m'.devices))
          (add_device S a m)
  unfolding add_device has_device
  add_device-Distinct d =
      let hash_of = hash_at m.device in
      let entries = S.entries m.devices in
      elim (Bool-cases (found_hash hash_of (hash_of a) false entries)) [
        | inl e ↦ rw e d
        | inr e ↦ rw e (
            subst (Distinct hash_of) (sym entries-append) (
              Distinct-append hash_of entries a d
                (Lacks-of_found hash_of (hash_of a) entries false e).1))
      ]

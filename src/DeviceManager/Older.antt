-- ===== src/DeviceManager/Older.antt =====
-- The device list against addresses that are not in use yet.
use tkmcollector.Prelude.{
  ℕ, suc, String, ◌≡◌, refl, ap, ◌∙◌, ◌<◌, Option, some, List, [], ◌∷◌, ◌++◌, arith, if◌then◌else◌,
  str_eq,
}
use tkmcollector.DeviceManager.{last_with}

-- The addresses of the list are older than the next one.
abbrev pub AllBelow : ℕ → List ℕ → Type 0
AllBelow n [] = Unit {0}
AllBelow n (x ∷ xs) = (x < n) × AllBelow n xs

pub AllBelow-append : (n : ℕ) (xs : List ℕ) → AllBelow n xs → AllBelow (suc n) (xs ++ (n ∷ []))
AllBelow-append n [] h = (ground arith, tt)
AllBelow-append n (x ∷ xs) h = (ground (arith, h.0), AllBelow-append n xs h.1)

-- A search of older addresses does not see what differs from there on.
pub last_with-agree :
    (f g : ℕ → String) (a : ℕ) (hash : String) (xs : List ℕ) (found : Option ℕ)
    → ((z : ℕ) → z < a → f z ≡ g z)
    → AllBelow a xs
    → last_with f hash found xs ≡ last_with g hash found xs
unfolding last_with
last_with-agree f g a hash [] found same h = refl
last_with-agree f g a hash (z ∷ zs) found same h =
    ap (λ t. last_with f hash (if str_eq t hash then some z else found) zs) (same z h.0)
    ∙ last_with-agree f g a hash zs (if str_eq (g z) hash then some z else found) same h.1

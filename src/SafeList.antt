-- ===== src/SafeList.antt =====
-- `bswi::util::SafeList`, a list whose changes take effect at the next commit. The library is a
-- submodule, so the list is an interface, with what the collector relies on as laws.
use tkmcollector.Prelude.{◌≡◌, List, [], ◌∷◌, ◌++◌}

pub record SafeList (A : Type 0) : Type 1 where
  pub Carrier : Type 0
  pub empty : Carrier
  -- what `foreach` visits
  pub entries : Carrier → List A
  pub append : Carrier → A → Carrier
  pub remove : Carrier → A → Carrier
  pub commit : Carrier → Carrier

module _ {A : Type 0} (S : SafeList A) where
  -- `foreach` with `remove` as its body.
  unfoldable pub remove_each : List A → S.Carrier → S.Carrier
  remove_each [] l = l
  remove_each (x ∷ xs) l = remove_each xs (S.remove l x)

  pub record IsLawful : Type 1 where
    -- No change is pending.
    pub IsCommitted : S.Carrier → Type 0
    pub empty-IsCommitted : IsCommitted S.empty
    pub commit-IsCommitted : (l : S.Carrier) → IsCommitted (S.commit l)
    pub entries-empty : S.entries S.empty ≡ []
    pub commit_idle : (l : S.Carrier) → IsCommitted l → S.entries (S.commit l) ≡ S.entries l
    pub commit-append :
        (l : S.Carrier) (x : A)
        → S.entries (S.commit (S.append l x)) ≡ S.entries (S.commit l) ++ (x ∷ [])
    pub commit-remove_each :
        (l : S.Carrier) → IsCommitted l → S.entries (S.commit (remove_each (S.entries l) l)) ≡ []

-- ===== src/Database/Loading.antt =====
-- Which devices the loop of doLoadDevices adds to the manager.
use tkmcollector.Prelude.{
  is_some, ℕ, suc, String, Bool, false, ◌≡◌, sym, ap, subst, ◌∙◌, Option, none, some, List, [], ◌∷◌,
  ◌||◌, arith, if◌then◌else◌, str_eq, eq_iff, Option-cases, inl, inr,
}
use tkmcollector.Outcome.{ok, Returns, Returns-mono}
use tkmcollector.SafeList.{SafeList, IsLawful}
use tkmcollector.Messages.{DeviceData, DeviceState}
use tkmcollector.Exec.{Effect, EventSource}
use tkmcollector.Exec.Rules.{>>=-Returns}
use tkmcollector.MonitorDevice.{new_device, set_state}
use tkmcollector.MonitorDevice.DataSource.{DataSource}
use tkmcollector.DeviceManager.{
  Manager, add_device, get_device, has_device, hash_at, last_with, store,
}
use tkmcollector.DeviceManager.Lookup.{entries-append, found_hash-last_with, last_with-append}
use tkmcollector.DeviceManager.Older.{AllBelow, AllBelow-append, last_with-agree}
use tkmcollector.Database.{State, load_device, load_each}

abbrev pub listed : String → List DeviceData → Bool
listed hash [] = false
listed hash (d ∷ ds) = str_eq d.hash hash || listed hash ds

module _ {Db : Type 0} (D : SafeList DataSource) (S : SafeList ℕ) (law : IsLawful S) where
  -- The manager's list has no pending change, and the next address is new.
  pub record IsReady (s : State Db D.Carrier S.Carrier) : Type 0 where
    pub settled : law.IsCommitted s.manager.devices
    pub older : AllBelow s.fresh (S.entries s.manager.devices)

  abbrev pub lookup : String → State Db D.Carrier S.Carrier → Option ℕ
  lookup hash s = get_device S hash s.manager

  -- The state with a new device at the next address.
  abbrev made : DeviceData → State Db D.Carrier S.Carrier → Manager D.Carrier S.Carrier
  made d s = record s.manager { device = store s.manager.device s.fresh (new_device D.empty d) }

  abbrev loaded : DeviceData → State Db D.Carrier S.Carrier → State Db D.Carrier S.Carrier
  loaded d s = record s {
    manager = record {
      device =
          store (made d s).device s.fresh
            (set_state DeviceState.loaded ((made d s).device s.fresh));
      devices = S.commit (S.append s.manager.devices s.fresh);
    };
    fresh = suc s.fresh;
  }

  unknown :
      (d : DeviceData) (s : State Db D.Carrier S.Carrier)
      → IsReady s
      → lookup d.hash s ≡ none
      → has_device S (made d s) s.fresh ≡ false
  unfolding has_device get_device new_device
  unknown d s r h =
      found_hash-last_with (hash_at (made d s).device) (hash_at (made d s).device s.fresh)
        (S.entries s.manager.devices) none
      ∙ ap is_some (
          last_with-agree (hash_at (made d s).device) (hash_at s.manager.device) s.fresh
            (hash_at (made d s).device s.fresh) (S.entries s.manager.devices) none
            (λ z b. ground (arith, b)) r.older)
      ∙ ap
          (λ t. is_some (last_with (hash_at s.manager.device) t none (S.entries s.manager.devices)))
          (ground arith)
      ∙ ap is_some h

  load_device-loaded :
      (d : DeviceData) (s : State Db D.Carrier S.Carrier)
      → IsReady s
      → lookup d.hash s ≡ none
      → load_device D S d s
        ≡ ok (tt, loaded d s, Effect.add_event_source (EventSource.device_queue d.hash) ∷ [])
  unfolding load_device add_device
  load_device-loaded d s r h = ground (arith, h, unknown d s r h)

  load_device-known :
      (d : DeviceData) (s : State Db D.Carrier S.Carrier) (a : ℕ)
      → lookup d.hash s ≡ some a
      → load_device D S d s ≡ ok (tt, s, [])
  unfolding load_device
  load_device-known d s a h = ground (arith, h)

  loaded-IsReady :
      (d : DeviceData) (s : State Db D.Carrier S.Carrier) → IsReady s → IsReady (loaded d s)
  loaded-IsReady d s r = record {
    settled = law.commit-IsCommitted (S.append s.manager.devices s.fresh);
    older =
        subst (AllBelow (suc s.fresh)) (sym (entries-append S law s.manager s.fresh r.settled))
          (AllBelow-append s.fresh (S.entries s.manager.devices) r.older);
  }

  lookup-loaded :
      (d : DeviceData) (s : State Db D.Carrier S.Carrier) (hash : String)
      → IsReady s
      → lookup hash (loaded d s) ≡ (if str_eq d.hash hash then some s.fresh else lookup hash s)
  unfolding get_device new_device
  lookup-loaded d s hash r =
      let f = hash_at (loaded d s).manager.device in
      let named : f s.fresh ≡ d.hash = ground arith in
      ap (last_with f hash none) (entries-append S law s.manager s.fresh r.settled)
      ∙ last_with-append f hash (S.entries s.manager.devices) s.fresh none
      ∙ ap
          (λ t.
            if str_eq t hash
            then some s.fresh
            else last_with f hash none (S.entries s.manager.devices))
          named
      ∙ ap (λ t. if str_eq d.hash hash then some s.fresh else t)
          (last_with-agree f (hash_at s.manager.device) s.fresh hash (S.entries s.manager.devices)
            none (λ z b. ground (arith, b)) r.older)

  -- What a list of rows adds to what a hash finds: a device that is known stays, and the listed hashes
  -- become known.
  pub record IsLoaded (ds : List DeviceData) (s s' : State Db D.Carrier S.Carrier) : Type 0 where
    pub ready : IsReady s'
    pub kept : (hash : String) (a : ℕ) → lookup hash s ≡ some a → lookup hash s' ≡ some a
    pub known :
        (hash : String) → is_some (lookup hash s') ≡ (is_some (lookup hash s) || listed hash ds)

  load_device-IsLoaded :
      (d : DeviceData) (s : State Db D.Carrier S.Carrier)
      → IsReady s
      → Returns (λ (_, s', _). IsLoaded (d ∷ []) s s') (load_device D S d s)
  load_device-IsLoaded d s r = elim (Option-cases (lookup d.hash s)) [
    | inl h ↦ rw (load_device-loaded d s r h) (record {
      ready = loaded-IsReady d s r;
      kept = λ hash a k. ground (arith, h, k, lookup-loaded d s hash r, eq_iff d.hash hash);
      known = λ hash. ground (arith, h, lookup-loaded d s hash r, eq_iff d.hash hash);
    })
    | inr (a, h) ↦ rw (load_device-known d s a h) (record {
      ready = r;
      kept = λ hash b k. k;
      known = λ hash. ground (arith, h, eq_iff d.hash hash);
    })
  ]

  IsLoaded-trans :
      (d : DeviceData) (ds : List DeviceData) (s s' s'' : State Db D.Carrier S.Carrier)
      → IsLoaded (d ∷ []) s s'
      → IsLoaded ds s' s''
      → IsLoaded (d ∷ ds) s s''
  IsLoaded-trans d ds s s' s'' f g = record {
    ready = g.ready;
    kept = λ hash a h. g.kept hash a (f.kept hash a h);
    known = λ hash. ground (arith, f.known hash, g.known hash);
  }

  pub load_each-IsLoaded :
      (ds : List DeviceData) (s : State Db D.Carrier S.Carrier)
      → IsReady s
      → Returns (λ (_, s', _). IsLoaded ds s s') (load_each D S ds s)
  unfolding load_each
  load_each-IsLoaded [] s r = record {
    ready = r;
    kept = λ hash a h. h;
    known = λ hash. ground arith;
  }
  load_each-IsLoaded (d ∷ ds) s r =
      >>=-Returns (λ (_, s', _). IsLoaded (d ∷ []) s s') (λ (_, s', _). IsLoaded (d ∷ ds) s s')
        (load_device D S d) s (λ _. load_each D S ds) (load_device-IsLoaded d s r)
        λ _ s' es f.
          Returns-mono (λ (_, s'', _). IsLoaded ds s' s'') (λ (_, s'', _). IsLoaded (d ∷ ds) s s'')
            (load_each D S ds s') (λ (_, s'', _) g. IsLoaded-trans d ds s s' s'' f g)
            (load_each-IsLoaded ds s' f.ready)

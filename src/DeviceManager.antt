-- ===== src/DeviceManager.antt =====
-- source/DeviceManager.cpp: the list of devices. Devices are shared objects, so the list holds
-- addresses, and `device` is what stands at an address.
pub mod Lookup
pub mod Older
use tkmcollector.Prelude.{
  ℕ, String, Bool, true, false, Option, none, some, List, [], ◌∷◌, if◌then◌else◌, str_eq, nat_eq,
}
use tkmcollector.Outcome.{Outcome, ok, throws, null_pointer}
use tkmcollector.SafeList.{SafeList}
use tkmcollector.Requests.{DatabaseAction, plain_request}
use tkmcollector.Exec.{Env, Exec, Effect, ◌>>=◌, ◌>>◌, pure, gets, modify, call}
use tkmcollector.MonitorDevice.{Device, disconnect, require_connection, set_connection}

pub record Manager (L C : Type 0) : Type 0 where
  pub device : ℕ → Device L
  pub devices : C

module _ {L : Type 0} where
  abbrev pub store : (ℕ → Device L) → ℕ → Device L → ℕ → Device L
  store f a d b = if nat_eq b a then d else f b

  abbrev pub hash_at : (ℕ → Device L) → ℕ → String
  hash_at device a = (device a).device_data.hash

  module _ {C : Type 0} where
    -- A method of the device at an address.
    abbrev pub on_device : {A : Type 0} → ℕ → Exec (Device L) A → Exec (Manager L C) A
    on_device a m s = elim (m (s.device a)) [
      | ok (x, d, es) ↦ ok (x, record s { device = store s.device a d }, es)
      | throws e ↦ throws e
      | null_pointer ↦ null_pointer
    ]

-- The flag of addDevice's `foreach`.
unfoldable pub found_hash : (ℕ → String) → String → Bool → List ℕ → Bool
found_hash hash_of hash found [] = found
found_hash hash_of hash found (a ∷ as') =
    found_hash hash_of hash (if str_eq (hash_of a) hash then true else found) as'

-- The result of getDevice's `foreach`: a later match replaces an earlier one.
unfoldable pub last_with : (ℕ → String) → String → Option ℕ → List ℕ → Option ℕ
last_with hash_of hash found [] = found
last_with hash_of hash found (a ∷ as') =
    last_with hash_of hash (if str_eq (hash_of a) hash then some a else found) as'

module _ {L : Type 0} (S : SafeList ℕ) where
  unfoldable pub get_device : String → Manager L S.Carrier → Option ℕ
  get_device hash m = last_with (hash_at m.device) hash none (S.entries m.devices)

  unfoldable pub has_device : Manager L S.Carrier → ℕ → Bool
  has_device m a = found_hash (hash_at m.device) (hash_at m.device a) false (S.entries m.devices)

  unfoldable pub add_device : ℕ → Exec (Manager L S.Carrier) Bool
  add_device a = do
    found ← gets (λ m. has_device m a)
    if found
        then pure false
        else do modify (λ m. record m { devices = S.commit (S.append m.devices a) }); pure true

  -- remDevice's `foreach`, over the entries that the list had before.
  unfoldable pub remove_matching : String → Bool → List ℕ → Exec (Manager L S.Carrier) Bool
  remove_matching hash found [] = pure found
  remove_matching hash found (a ∷ as') = do
    here ← gets (λ m. hash_at m.device a)
    if str_eq here hash
        then (do
          c ← on_device a require_connection
          c' ← on_device a (disconnect c)
          on_device a (modify (set_connection c'))
          modify (λ m. record m { devices = S.remove m.devices a })
          remove_matching hash true as')
        else remove_matching hash found as'

  unfoldable pub rem_device : ℕ → Exec (Manager L S.Carrier) Bool
  rem_device a = do
    hash ← gets (λ m. hash_at m.device a)
    entries ← gets (λ m. S.entries m.devices)
    found ← remove_matching hash false entries
    modify (λ m. record m { devices = S.commit m.devices })
    pure found

unfoldable pub load_devices : {M : Type 0} → Env → Exec M Bool
load_devices env = call env (Effect.push_database (plain_request DatabaseAction.load_devices))

unfoldable pub clean_sessions : {M : Type 0} → Env → Exec M Bool
clean_sessions env = call env (Effect.push_database (plain_request DatabaseAction.clean_sessions))

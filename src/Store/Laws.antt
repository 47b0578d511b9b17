-- ===== src/Store/Laws.antt =====
-- Laws of store.go: the two backends.
use lib_agent_oauth.Prelude.{String, ◌≡◌, true, false, some, ◌==◌, if◌then◌else◌, arith}
use lib_agent_oauth.Map.{Map, lookup-insert}
use lib_agent_oauth.Exec.{ok, err}
use lib_agent_oauth.Env.{Stored}
use lib_agent_oauth.Store.{
  IsLawful, mem_store, Keyring, keyring_store, err_store_unavailable, delete_all_keyring,
}

mem_get-set :
    (s s' : Map Stored) (k j : String) (v : Stored)
    → mem_store.set s k v ≡ (ok tt, s')
    → mem_store.get s' j ≡ (if k == j then ok (some v) else mem_store.get s j)
unfolding mem_store
mem_get-set s s' k j v h = ground (arith, lookup-insert k j v s)

-- MemStore: a successful write is read back, and touches no other key.
pub mem_store-IsLawful : IsLawful mem_store
mem_store-IsLawful = record { get-set = mem_get-set }

-- What the keyring promises: a successful write leaves it available, is read back, and touches no
-- other key.
pub record KeyringLaws {K : Type 0} (kr : Keyring K) : Type 0 where
  pub stays_available :
      (k k' : K) (key : String) (v : Stored) → kr.set k key v ≡ (ok tt, k') → kr.available k' ≡ true
  pub get-set :
      (k k' : K) (key j : String) (v : Stored)
      → kr.set k key v ≡ (ok tt, k')
      → kr.get k' j ≡ (if key == j then some v else kr.get k j)

module _ {K : Type 0} (kr : Keyring K) where
  -- An unavailable keyring refuses every operation with the one error, and is not changed.
  pub keyring_store-unavailable :
      (k : K)
      → kr.available k ≡ false
      → ((key : String) → (keyring_store kr).get k key ≡ err err_store_unavailable)
        × ((key : String) (v : Stored)
            → (keyring_store kr).set k key v ≡ (err err_store_unavailable, k))
        × ((key : String) → (keyring_store kr).delete k key ≡ (err err_store_unavailable, k))
        × (delete_all_keyring kr k ≡ (err err_store_unavailable, k))
  unfolding keyring_store delete_all_keyring
  keyring_store-unavailable k h =
      (λ key. ground arith, λ key v. ground arith, λ key. ground arith, ground arith)

  module _ (laws : KeyringLaws kr) where
    keyring_get-set :
        (s s' : K) (k j : String) (v : Stored)
        → (keyring_store kr).set s k v ≡ (ok tt, s')
        → (keyring_store kr).get s' j ≡ (if k == j then ok (some v) else (keyring_store kr).get s j)
    unfolding keyring_store
    keyring_get-set s s' k j v h =
        ground (arith, laws.stays_available s s' k v, laws.get-set s s' k j v)

    -- KeyringStore, over such a keyring: a successful write is read back, and touches no other key.
    pub keyring_store-IsLawful : IsLawful (keyring_store kr)
    keyring_store-IsLawful = record { get-set = keyring_get-set }

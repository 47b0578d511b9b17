-- ===== src/Store.antt =====
-- store.go: the two backends of the interface `SecretStore`, and what a client may rely on.
pub mod Laws
use lib_agent_oauth.Prelude.{String, ◌≡◌, Bool, true, Option, some, none, ◌==◌, if◌then◌else◌, []}
use lib_agent_oauth.Map
use lib_agent_oauth.Map.{Map}
use lib_agent_oauth.Exec.{Result, ok, err}
use lib_agent_oauth.Env.{SecretStore, Stored}

abbrev pub err_store_unavailable : String
err_store_unavailable = "oauth secret store unavailable"

-- What `Set` promises: a successful write is read back, and no other key is touched.
pub record IsLawful {S : Type 0} (b : SecretStore S) : Type 0 where
  pub get-set :
      (s s' : S) (k j : String) (v : Stored)
      → b.set s k v ≡ (ok tt, s')
      → b.get s' j ≡ (if k == j then ok (some v) else b.get s j)

-- MemStore. Its lock makes each method one step.
unfoldable pub mem_store : SecretStore (Map Stored)
mem_store = record {
  get = λ m k. ok (Map.lookup k m);
  set = λ m k v. (ok tt, Map.insert k v m);
  delete = λ m k. (ok tt, Map.delete k m);
}

-- `(*MemStore).DeleteAll`
unfoldable pub delete_all_mem : Map Stored → Result (Unit {0}) × Map Stored
delete_all_mem m = (ok tt, [])

-- The operating system's keyring, as the program calls it (lib-agent-keyring).
pub record Keyring (K : Type 0) : Type 0 where
  pub available : K → Bool
  pub get : K → String → Option Stored
  pub set : K → String → Stored → Result (Unit {0}) × K
  pub delete : K → String → Result (Unit {0}) × K
  pub delete_all : K → Result (Unit {0}) × K

module _ {K : Type 0} (kr : Keyring K) where
  -- ensureAvailable
  ensure_available : K → Result (Unit {0})
  ensure_available k = if kr.available k then ok tt else err err_store_unavailable

  -- `if err := s.ensureAvailable(); err != nil { return err }` before a write.
  guarded : K → Result (Unit {0}) × K → Result (Unit {0}) × K
  unfolding ensure_available
  guarded k write = elim (ensure_available k) [ ok _ ↦ write | err e ↦ (err e, k) ]

  keyring_get : K → String → Result (Option Stored)
  unfolding ensure_available
  keyring_get k key = elim (ensure_available k) [ ok _ ↦ ok (kr.get k key) | err e ↦ err e ]

  unfoldable pub keyring_store : SecretStore K
  unfolding guarded keyring_get
  keyring_store = record {
    get = keyring_get;
    set = λ k key v. guarded k (kr.set k key v);
    delete = λ k key. guarded k (kr.delete k key);
  }

  -- `(*KeyringStore).DeleteAll`
  unfoldable pub delete_all_keyring : K → Result (Unit {0}) × K
  unfolding guarded
  delete_all_keyring k = guarded k (kr.delete_all k)

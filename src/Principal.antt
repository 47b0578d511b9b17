-- ===== src/Principal.antt =====
-- principal.go: named principals, in one stored map, and the codes that establish them.
pub mod Codec
pub mod Laws
pub mod Verify
pub mod Revoke
pub mod Revoked
use Prim.Native.String.{compare}
use lib_agent_oauth.Prelude.{
  ℕ, String, ◌≡◌, refl, Bool, true, false, not, ◌&&◌, Option, none, some, List, [], ◌∷◌, map, ◌==◌,
  if◌then◌else◌,
}
use lib_agent_oauth.Map
use lib_agent_oauth.Map.{Map}
use lib_agent_oauth.Exec.{◌>>=◌, ◌>>◌, pure}
use lib_agent_oauth.Env.{Env}
use lib_agent_oauth.Model.{M, PrincipalGrant, anonymous}
use lib_agent_oauth.JsonMap
use lib_agent_oauth.JsonMap.{Change, load, mutate}
use lib_agent_oauth.Pairing.{generate_pairing_code, shared_code, normalize_pairing, equal_pairing}
use lib_agent_oauth.Refresh
use lib_agent_oauth.Session
use Codec.{PrincipalRecord, record_codec}

abbrev pub principals_store_key : String
principals_store_key = "principals"

-- `m[name].Binding`: of a missing name, the zero value.
abbrev pub stored_binding : Option PrincipalRecord → Map String
stored_binding none = []
stored_binding (some r) = r.binding

-- What AddPrincipal's closure stores; `none` is a nil binding.
abbrev pub new_record : String → Option (Map String) → Option PrincipalRecord → PrincipalRecord
new_record code none old = record { code = code; binding = stored_binding old }
new_record code (some b) old = record { code = code; binding = b }

module _ ⦃env : Env⦄ where
  abbrev pub put_principal :
      String
      → Option (Map String)
      → String
      → Map PrincipalRecord
      → Change (Unit {0}) PrincipalRecord
  put_principal name binding code m =
      (tt, some (Map.insert name (new_record code binding (Map.lookup name m)) m))

  unfoldable pub add_principal : String → Option (Map String) → M String
  add_principal name binding = do
    code ← generate_pairing_code
    mutate record_codec principals_store_key (put_principal name binding code)
    pure code

  -- The closure of mutateExisting: the changed record, if the principal exists.
  abbrev pub change_found :
      String
      → (PrincipalRecord → PrincipalRecord)
      → Map PrincipalRecord
      → Option PrincipalRecord
      → Change (Option PrincipalRecord) PrincipalRecord
  change_found name f m none = (none, none)
  change_found name f m (some r) = (some (f r), some (Map.insert name (f r) m))

  abbrev pub change_existing :
      String
      → (PrincipalRecord → PrincipalRecord)
      → Map PrincipalRecord
      → Change (Option PrincipalRecord) PrincipalRecord
  change_existing name f m = change_found name f m (Map.lookup name m)

  -- mutateExisting; `none` is "not found".
  unfoldable pub mutate_existing :
      String → (PrincipalRecord → PrincipalRecord) → M (Option PrincipalRecord)
  mutate_existing name f = mutate record_codec principals_store_key (change_existing name f)

  abbrev pub found : {A : Type 0} → Option A → Bool
  found none = false
  found (some _) = true

  -- SetPrincipalBinding
  unfoldable pub set_principal_binding : String → Map String → M Bool
  set_principal_binding name binding = do
    r ← mutate_existing name (λ rec. record rec { binding = binding })
    pure (found r)

  abbrev pub merge_binding : Map String → PrincipalRecord → PrincipalRecord
  merge_binding patch rec = record rec { binding = Map.copy rec.binding patch }

  abbrev pub binding_of : Option PrincipalRecord → Option (Map String)
  binding_of none = none
  binding_of (some r) = some r.binding

  -- MergePrincipalBinding
  unfoldable pub merge_principal_binding : String → Map String → M (Option (Map String))
  merge_principal_binding name patch = do
    r ← mutate_existing name (merge_binding patch)
    pure (binding_of r)

  abbrev pub set_code : String → PrincipalRecord → PrincipalRecord
  set_code code rec = record rec { code = code }

  abbrev pub code_if_found : String → Option PrincipalRecord → Option String
  code_if_found code none = none
  code_if_found code (some _) = some code

  -- RotatePrincipal
  unfoldable pub rotate_principal : String → M (Option String)
  rotate_principal name = do
    code ← generate_pairing_code
    r ← mutate_existing name (set_code code)
    pure (code_if_found code r)

  abbrev pub grant_of : String → Option PrincipalRecord → Option PrincipalGrant
  grant_of name none = none
  grant_of name (some r) = some (record { name = name; binding = r.binding })

  -- grantFor
  unfoldable pub grant_for : String → M (Option PrincipalGrant)
  grant_for name = do r ← JsonMap.get record_codec principals_store_key name; pure (grant_of name r)

  abbrev code_of : Option PrincipalRecord → Option String
  code_of none = none
  code_of (some r) = some r.code

  -- PrincipalCode
  unfoldable pub principal_code : String → M (Option String)
  principal_code name = do r ← JsonMap.get record_codec principals_store_key name; pure (code_of r)

  -- The closure of RemovePrincipal: whether there was something to delete.
  abbrev pub delete_found :
      String → Map PrincipalRecord → Option PrincipalRecord → Change Bool PrincipalRecord
  delete_found name m none = (false, none)
  delete_found name m (some _) = (true, some (Map.delete name m))

  abbrev pub delete_existing : String → Map PrincipalRecord → Change Bool PrincipalRecord
  delete_existing name m = delete_found name m (Map.lookup name m)

  -- RemovePrincipal
  unfoldable pub remove_principal : String → M Bool
  remove_principal name = do
    removed ← mutate record_codec principals_store_key (delete_existing name)
    Refresh.remove_for_principal name
    Session.remove_for_principal name
    pure removed

  -- `(*Pairing).Principals`
  unfoldable pub principals : M (Map (Map String))
  principals = do
    records ← load record_codec principals_store_key
    pure (map (λ (e : String × PrincipalRecord). (e.0, e.1.binding)) records)

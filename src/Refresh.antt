-- ===== src/Refresh.antt =====
-- refresh.go: refresh tokens, rotated on use, in one stored map.
pub mod Codec
pub mod Laws
use lib_agent_oauth.Prelude.{ℕ, String, Bool, true, false, Option, none, some, ◌==◌, if◌then◌else◌}
use lib_agent_oauth.Map
use lib_agent_oauth.Map.{Map}
use lib_agent_oauth.Exec.{◌>>=◌, ◌>>◌, pure}
use lib_agent_oauth.Env.{Env}
use lib_agent_oauth.Model.{M, PrincipalGrant}
use lib_agent_oauth.JsonMap.{Change, drop_where, mutate}
use lib_agent_oauth.Random.{rand_token}
use Codec.{RefreshGrant, refresh_codec}

abbrev pub refresh_store_key : String
refresh_store_key = "refresh-tokens"

abbrev pub of_principal : String → RefreshGrant → Bool
of_principal name g = g.principal.name == name

module _ ⦃env : Env⦄ where
  -- `m[token] = g; return true`
  abbrev pub put_grant : String → RefreshGrant → Map RefreshGrant → Change (Unit {0}) RefreshGrant
  put_grant token g m = (tt, some (Map.insert token g m))

  unfoldable pub issue : String → String → String → PrincipalGrant → M String
  issue client_id scope resource p = do
    token ← rand_token 32
    mutate refresh_codec refresh_store_key (
        put_grant token
          (record { client_id = client_id; scope = scope; resource = resource; principal = p }))
    pure token

  unfoldable pub remove_for_principal : String → M (Unit {0})
  remove_for_principal name =
      if name == ""
      then pure tt
      else mutate refresh_codec refresh_store_key (drop_where (of_principal name))

  -- The grant of a token, which is deleted if it is there.
  abbrev pub take_token : String → Map RefreshGrant → Change (Option RefreshGrant) RefreshGrant
  take_token token m = elim (Map.lookup token m) [
    | none ↦ (none, none)
    | some g ↦ (some g, some (Map.delete token m))
  ]

  unfoldable pub exchange : String → M (Option RefreshGrant)
  exchange token = mutate refresh_codec refresh_store_key (take_token token)

-- ===== src/Delegate.antt =====
-- resource.go: the resource server of a tool behind a host, with the metadata URL of protect.go and
-- the verify-only issuer and `PublicKey` of token.go.
pub mod Laws
use Prim.Native.String.{[], ◌∷◌, ◌++◌}
use lib_agent_oauth.Prelude.{
  ℕ, code, String, ◌≡◌, ◌≢◌, sym, ap, Bool, true, false, not, Bool-cases, inl, inr, Option, none,
  some, List, length, ◌==◌, eqb, if◌then◌else◌, ne_of_test, arith,
}
use lib_agent_oauth.Text.{trim_slash, trim_prefix}
use lib_agent_oauth.Exec.{Result, ok, err}
use lib_agent_oauth.Env.{Env}
use lib_agent_oauth.Jwt.{Key, hmac_key, private_key, public_key, ed_dsa}
use lib_agent_oauth.Http.{Request}
use lib_agent_oauth.Token.{Issuer, validate}
use lib_agent_oauth.Protect.{Gate, protect_handler}

abbrev pub protected_resource_metadata_path : String
protected_resource_metadata_path = "/.well-known/oauth-protected-resource"

-- resourceSuffix
unfoldable pub resource_suffix : String → String → String
resource_suffix base resource =
    if trim_prefix resource base == "/" then "" else trim_prefix resource base

-- protectedResourceMetadataURL
unfoldable pub protected_resource_metadata_url : String → String → String
protected_resource_metadata_url base resource =
    base ++ (protected_resource_metadata_path ++ resource_suffix base resource)

-- `strings.HasPrefix`
unfoldable pub has_prefix : String → String → Bool
has_prefix s [] = true
has_prefix [] (c ∷ p) = false
has_prefix (d ∷ s) (c ∷ p) =
    let rest = has_prefix s p in if eqb (code d) (code c) then rest else false

-- NewEd25519Verifier
unfoldable pub new_ed25519_verifier : String → String → List ℕ → Result Issuer
new_ed25519_verifier issuer audience pub_key =
    if eqb (length pub_key) 32
    then ok (record {
      method = ed_dsa;
      sign_key = none;
      verify_key = public_key pub_key;
      issuer = issuer;
      audience = audience;
      ttl = 0;
    })
    else err "oauth: Ed25519 public key has the wrong size"

abbrev pub public_part : Key → Option (List ℕ)
public_part (public_key k) = some k
public_part (hmac_key k) = none
public_part (private_key k) = none

-- `(*Issuer).PublicKey`
unfoldable pub issuer_public_key : Issuer → Option (List ℕ)
issuer_public_key i = public_part i.verify_key

pub record RsConfig : Type 0 where
  pub issuer_url : String
  pub resource : String
  pub verify_key : List ℕ

pub record ResourceServer : Type 0 where
  pub verifier : Issuer
  pub prm_url : String

abbrev pub with_verifier : String → Result Issuer → Result ResourceServer
with_verifier prm_url (ok v) = ok (record { verifier = v; prm_url = prm_url })
with_verifier prm_url (err e) = err e

-- NewResourceServer
unfoldable pub new_resource_server : RsConfig → Result ResourceServer
new_resource_server c =
    let issuer_url = trim_slash c.issuer_url in
    let resource = trim_slash c.resource in
    if issuer_url == ""
    then err "oauth: RSConfig.IssuerURL is required"
    else if resource == ""
    then err "oauth: RSConfig.Resource is required"
    else if not (has_prefix resource (issuer_url ++ "/"))
    then err "oauth: RSConfig.Resource must sit under IssuerURL"
    else with_verifier (protected_resource_metadata_url issuer_url resource)
        (new_ed25519_verifier issuer_url resource c.verify_key)

module _ ⦃env : Env⦄ where
  -- `(*ResourceServer).Protect`, at a time.
  unfoldable pub protect : ResourceServer → ℕ → Request → Gate
  protect r now = protect_handler (validate r.verifier now) r.prm_url

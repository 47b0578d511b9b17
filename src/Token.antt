-- ===== src/Token.antt =====
-- token.go: minting access tokens and validating them.
pub mod Laws
use lib_agent_oauth.Prelude.{ℕ, ◌+◌, String, true, Option, none, some, [], ◌∷◌}
use lib_agent_oauth.Exec.{Result, ok, err}
use lib_agent_oauth.Jwt.{Method, Key, Claims, ParserOptions}
use lib_agent_oauth.Env.{Env}
use lib_agent_oauth.Model.{M, PrincipalGrant}

pub record Issuer : Type 0 where
  pub method : Method
  -- `none` is verify-only
  pub sign_key : Option Key
  pub verify_key : Key
  pub issuer : String
  pub audience : String
  pub ttl : ℕ

-- What a valid token says of its bearer.
pub record Verified : Type 0 where
  pub client_id : String
  pub scope : String
  pub grant : PrincipalGrant
  pub expires_at : ℕ

module _ ⦃env : Env⦄ where
  -- The claims of a new token.
  unfoldable pub claims_of : Issuer → ℕ → String → String → String → PrincipalGrant → Claims
  claims_of i now client_id scope audience p = record {
    scope = scope;
    principal = p.name;
    binding = p.binding;
    issuer = i.issuer;
    subject = client_id;
    audience = audience ∷ [];
    issued_at = some (env.jwt.numeric_date now);
    expires_at = some (env.jwt.numeric_date (now + i.ttl));
  }

  signed : Option String → Result String
  signed none = err "oauth: signing token"
  signed (some t) = ok t

  sign_with : Issuer → Option Key → Claims → Result String
  unfolding signed
  sign_with i none c = err "oauth: verify-only issuer cannot mint tokens"
  sign_with i (some k) c = signed (env.jwt.sign i.method k c)

  -- MintFor; the lifetime that it returns too is the issuer's.
  unfoldable pub mint_for : Issuer → String → String → String → PrincipalGrant → M String
  unfolding sign_with claims_of
  mint_for i client_id scope audience p w =
      (sign_with i i.sign_key (claims_of i w.now client_id scope audience p), w)

  -- Mint
  unfoldable pub mint : Issuer → String → String → PrincipalGrant → M String
  unfolding mint_for
  mint i client_id scope p = mint_for i client_id scope i.audience p

  abbrev pub options_of : Issuer → ParserOptions
  options_of i = record {
    valid_method = i.method;
    issuer = i.issuer;
    audience = i.audience;
    expiration_required = true;
  }

  verified_at : Claims → Option ℕ → Result Verified
  verified_at c none = err "oauth: invalid token"
  verified_at c (some t) = ok (record {
    client_id = c.subject;
    scope = c.scope;
    grant = record { name = c.principal; binding = c.binding };
    expires_at = t;
  })

  verified : Option Claims → Result Verified
  unfolding verified_at
  verified none = err "token is invalid"
  verified (some c) = verified_at c c.expires_at

  -- Validate
  unfoldable pub validate : Issuer → ℕ → String → Result Verified
  unfolding verified
  validate i now token = verified (env.jwt.parse (options_of i) i.verify_key now token)

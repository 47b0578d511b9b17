-- ===== src/Configure.antt =====
-- server.go: `New`, which builds a server from its configuration.
pub mod Laws
use lib_agent_oauth.Prelude.{
  ℕ, ◌*◌, String, Bool, true, false, not, Option, none, some, List, ◌==◌, eqb, if◌then◌else◌,
}
use lib_agent_oauth.Text.{trim_space, trim_slash}
use lib_agent_oauth.Map.{Map}
use lib_agent_oauth.Exec.{Result, ok, err, ◌>>=◌, ◌>>◌, pure, raise, lift}
use lib_agent_oauth.Env.{Env}
use lib_agent_oauth.Model.{World, M}
use lib_agent_oauth.Enrollment.{Enrollment, validate}
use lib_agent_oauth.Token.{Issuer}
use lib_agent_oauth.Keys.{new_issuer, new_ed25519_issuer}
use lib_agent_oauth.Server.{Server, Audiences, audiences, scopes_or_default}

-- `time.Duration`, in nanoseconds: `negative n` is `-(n + 1)`.
pub data Duration : Type 0 where
  nanoseconds negative : ℕ → Duration

abbrev pub default_token_ttl : ℕ
default_token_ttl = 3600 * 1000000000

pub record Config : Type 0 where
  -- whether there is a store; its backend is that of Env
  pub has_store : Bool
  pub public_url : String
  pub resource : String
  pub resources : List String
  pub token_ttl : Duration
  pub scopes : List String
  pub enrollment : Option Enrollment
  pub enrollment_for_resource : Option (String → Option Enrollment)
  pub asymmetric : Bool
  pub session_ttl : Duration
  pub binding_for_resource : Option (Map String → String → Map String)
  -- whether OnEvent is set
  pub observed : Bool

-- `if ttl <= 0 { ttl = defaultTokenTTL }`
abbrev pub ttl_or_default : Duration → ℕ
ttl_or_default (negative n) = default_token_ttl
ttl_or_default (nanoseconds ttl) = if eqb ttl 0 then default_token_ttl else ttl

-- `if cfg.SessionTTL > 0`
abbrev pub session_lifetime : Duration → Option ℕ
session_lifetime (negative n) = none
session_lifetime (nanoseconds ttl) = if eqb ttl 0 then none else some ttl

-- `if cfg.Enrollment != nil { … Validate() … }`
abbrev pub validate_enrollment : Option Enrollment → Result (Unit {0})
validate_enrollment none = ok tt
validate_enrollment (some e) = validate e

-- The server around its issuer.
abbrev pub server_of : Config → Audiences → Issuer → Server
server_of c a issuer = record {
  audiences = a;
  public_url = trim_slash c.public_url;
  scopes = scopes_or_default c.scopes;
  issuer = issuer;
  enrollment = c.enrollment;
  enrollment_for_resource = c.enrollment_for_resource;
  binding_for_resource = c.binding_for_resource;
  session_ttl = session_lifetime c.session_ttl;
  observed = c.observed;
}

module _ ⦃env : Env⦄ where
  abbrev pub configured_issuer : Bool → String → String → ℕ → M Issuer
  configured_issuer true = new_ed25519_issuer
  configured_issuer false = new_issuer

  -- After the checks on the configuration.
  unfoldable pub new_checked : Config → Audiences → M Server
  new_checked c a = do
    lift (validate_enrollment c.enrollment)
    issuer ←
        configured_issuer c.asymmetric (trim_slash c.public_url) a.resource
          (ttl_or_default c.token_ttl)
    pure (server_of c a issuer)

  -- New
  unfoldable pub new_server : Config → M Server
  new_server c =
      if not c.has_store
      then raise "oauth: Config.Store is required"
      else if trim_space c.public_url == ""
      then raise "oauth: Config.PublicURL is required"
      else new_checked c (audiences c.public_url c.resource c.resources)

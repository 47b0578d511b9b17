-- ===== src/Server.antt =====
-- server.go: what a server is configured with, and which audience a request names.
pub mod Laws
use lib_agent_oauth.Prelude.{
  ℕ, String, Bool, true, false, not, ◌&&◌, Option, none, some, List, [], ◌∷◌, ◌++◌, ◌==◌, contains,
  if◌then◌else◌,
}
use lib_agent_oauth.Map.{Map}
use lib_agent_oauth.Enrollment.{Enrollment}
use lib_agent_oauth.Token.{Issuer}
use lib_agent_oauth.Text.{trim_slash, is_nil}
use lib_agent_oauth.Exec.{Result, ok}
use lib_agent_oauth.Env.{Env}
use lib_agent_oauth.Model.{M, Event, World, PrincipalGrant}

-- The part of a `Config` that the audiences and the scopes come from.
pub record Audiences : Type 0 where
  -- `s.resource`, the default audience
  pub resource : String
  -- `s.resources`
  pub resources : List String

-- The loop over `cfg.Resources`: trimmed, non-empty, each once, the default first.
unfoldable pub add_resources : String → List String → List String → List String
add_resources resource known [] = known
add_resources resource known (r ∷ rest) =
    let t = trim_slash r in
    add_resources resource
      (if not (is_nil t) && not (t == resource) && not (contains known t)
        then known ++ t ∷ []
        else known)
      rest

-- `New`'s default resource: the configured one, or else the public URL.
abbrev pub default_resource : String → String → String
default_resource public_url resource =
    if is_nil (trim_slash resource) then trim_slash public_url else trim_slash resource

unfoldable pub audiences : String → String → List String → Audiences
audiences public_url resource resources =
    let default = default_resource public_url resource in
    record { resource = default; resources = add_resources default (default ∷ []) resources }

-- resolveResource; `none` is `ok=false`.
unfoldable pub resolve_resource : Audiences → String → Option String
resolve_resource a requested =
    if requested == ""
    then some a.resource
    else let trimmed = trim_slash requested in
      if contains a.resources trimmed then some trimmed else none

-- `New`'s default scopes.
unfoldable pub scopes_or_default : List String → List String
scopes_or_default [] = "mcp" ∷ []
scopes_or_default (s ∷ rest) = s ∷ rest

pub record Server : Type 0 where
  pub audiences : Audiences
  pub open audiences use *
  pub public_url : String
  pub scopes : List String
  pub issuer : Issuer
  pub enrollment : Option Enrollment
  pub enrollment_for_resource : Option (String → Option Enrollment)
  pub binding_for_resource : Option (Map String → String → Map String)
  -- the lifetime of a session, or `none` where sessions are disabled
  pub session_ttl : Option ℕ
  -- whether an observer is configured
  pub observed : Bool

abbrev resolved_enrollment : (String → Option Enrollment) → Option String → Option Enrollment
resolved_enrollment f none = none
resolved_enrollment f (some resource) = f resource

abbrev enrollment_by : Option (String → Option Enrollment) → Server → String → Option Enrollment
enrollment_by none s requested = s.enrollment
enrollment_by (some f) s requested = resolved_enrollment f (resolve_resource s.audiences requested)

-- enrollmentFor
unfoldable pub enrollment_for : Server → String → Option Enrollment
enrollment_for s requested = enrollment_by s.enrollment_for_resource s requested

abbrev resolved_binding :
    (Map String → String → Map String) → Map String → Option String → Map String
resolved_binding f b none = b
resolved_binding f b (some resource) = f b resource

abbrev binding_by :
    Option (Map String → String → Map String) → Server → Map String → String → Map String
binding_by none s b requested = b
binding_by (some f) s b requested = resolved_binding f b (resolve_resource s.audiences requested)

-- projectedBinding
unfoldable pub projected_binding : Server → Map String → String → Map String
projected_binding s b requested = binding_by s.binding_for_resource s b requested

module _ ⦃env : Env⦄ where
  -- event.go's `event`: what an observer has been told, the newest first.
  unfoldable pub event : Server → Event → World env.S → World env.S
  event s e w = if s.observed then record w { events = e ∷ w.events } else w

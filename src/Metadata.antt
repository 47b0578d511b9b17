-- ===== src/Metadata.antt =====
-- metadata.go and server.go's RegisterRoutes: the discovery documents, and which path leads where.
pub mod Laws
use Prim.Native.String.{◌++◌}
use lib_agent_oauth.Prelude.{
  ℕ, String, Bool, true, false, Option, List, [], ◌∷◌, ◌==◌, if◌then◌else◌,
}
use lib_agent_oauth.Prelude
use lib_agent_oauth.Map
use lib_agent_oauth.Map.{Map}
use lib_agent_oauth.Server.{Server}
use lib_agent_oauth.Env.{Env}
use lib_agent_oauth.Http.{Request}
use lib_agent_oauth.Token.{validate}
use lib_agent_oauth.Protect.{Gate, protect_handler}
use lib_agent_oauth.Delegate.{
  protected_resource_metadata_path, resource_suffix, protected_resource_metadata_url,
  issuer_public_key,
}

abbrev pub auth_server_metadata_path : String
auth_server_metadata_path = "/.well-known/oauth-authorization-server"

abbrev pub register_path : String
register_path = "/oauth/register"

abbrev pub authorize_path : String
authorize_path = "/oauth/authorize"

abbrev pub token_path : String
token_path = "/oauth/token"

-- The document of writePRM.
pub record ResourceMetadata : Type 0 where
  pub resource : String
  pub authorization_servers : List String
  pub scopes_supported : List String
  pub bearer_methods_supported : List String

-- writePRM
unfoldable pub write_prm : Server → String → ResourceMetadata
write_prm s resource = record {
  resource = resource;
  authorization_servers = s.public_url ∷ [];
  scopes_supported = s.scopes;
  bearer_methods_supported = "header" ∷ [];
}

-- The document of handleAuthServerMetadata.
pub record ServerMetadata : Type 0 where
  pub issuer : String
  pub authorization_endpoint : String
  pub token_endpoint : String
  pub registration_endpoint : String
  pub scopes_supported : List String
  pub response_types_supported : List String
  pub grant_types_supported : List String
  pub code_challenge_methods_supported : List String
  pub token_endpoint_auth_methods_supported : List String

-- handleAuthServerMetadata
unfoldable pub handle_auth_server_metadata : Server → ServerMetadata
handle_auth_server_metadata s = record {
  issuer = s.public_url;
  authorization_endpoint = s.public_url ++ authorize_path;
  token_endpoint = s.public_url ++ token_path;
  registration_endpoint = s.public_url ++ register_path;
  scopes_supported = s.scopes;
  response_types_supported = "code" ∷ [];
  grant_types_supported = "authorization_code" ∷ "refresh_token" ∷ [];
  code_challenge_methods_supported = "S256" ∷ [];
  token_endpoint_auth_methods_supported = "none" ∷ [];
}

-- A handler, by what it answers.
pub data Route : Type 0 where
  resource_document : ResourceMetadata → Route
  server_document : ServerMetadata → Route
  to_register to_authorize to_token : Route

-- The loop over `s.resources`, before the routes that follow.
unfoldable pub resource_routes : Server → List String → Map Route → Map Route
resource_routes s [] rest = rest
resource_routes s (r ∷ resources) rest =
    let routes = resource_routes s resources rest in
    if resource_suffix s.public_url r == ""
    then routes
    else (
      protected_resource_metadata_path ++ resource_suffix s.public_url r,
      resource_document (write_prm s r),
    )
      ∷ routes

abbrev pub fixed_routes : Server → Map Route
fixed_routes s =
    (auth_server_metadata_path, server_document (handle_auth_server_metadata s))
    ∷ (register_path, to_register)
    ∷ (authorize_path, to_authorize)
    ∷ (token_path, to_token)
    ∷ []

-- RegisterRoutes: the patterns in the order in which they are registered. None ends in a slash, so
-- that a ServeMux matches them exactly; it refuses a pattern that it has already.
unfoldable pub register_routes : Server → Map Route
register_routes s =
    (protected_resource_metadata_path, resource_document (write_prm s s.resource))
    ∷ resource_routes s s.resources (fixed_routes s)

-- prmURL
unfoldable pub own_metadata_url : Server → String
own_metadata_url s = protected_resource_metadata_url s.public_url s.resource

-- `(*Server).PublicKey`
unfoldable pub server_public_key : Server → Option (List ℕ)
server_public_key s = issuer_public_key s.issuer

module _ ⦃env : Env⦄ where
  -- `(*Server).Protect`
  unfoldable pub protect_server : Server → ℕ → Request → Gate
  protect_server s now r = protect_handler (validate s.issuer now) (own_metadata_url s) r

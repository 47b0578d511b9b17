-- ===== src/Register.antt =====
-- register.go: the endpoint at which clients register. The request's body comes decoded, or as
-- `none` where it is no JSON of the right shape.
pub mod Laws
use lib_agent_oauth.Prelude.{
  String, Bool, true, false, not, ◌&&◌, ◌||◌, Option, none, some, List, [], ◌∷◌, ◌==◌,
  if◌then◌else◌,
}
use lib_agent_oauth.Env.{Env}
use lib_agent_oauth.Model.{World, is_empty, Event, client_registered}
use lib_agent_oauth.Http.{
  Url, Reply, reply, registration, oauth_error_reply, method_not_allowed, Handler, on,
}
use lib_agent_oauth.Clients
use lib_agent_oauth.Clients.{Client}
use lib_agent_oauth.Server.{Server, event}

pub record RegisterRequest : Type 0 where
  pub redirect_uris : List String
  pub client_name : String

-- The host test for plain http.
abbrev pub is_loopback : String → Bool
is_loopback host = host == "localhost" || (host == "127.0.0.1" || host == "::1")

-- What is asked of a parsed URI; it is absolute if it has a scheme.
unfoldable pub valid_url : Option Url → Bool
valid_url none = false
valid_url (some u) =
    if u.scheme == "" || u.host == ""
    then false
    else if u.scheme == "https"
    then true
    else if u.scheme == "http"
    then is_loopback u.hostname
    else false

module _ ⦃env : Env⦄ where
  unfoldable pub valid_redirect_uri : String → Bool
  valid_redirect_uri s = valid_url (env.parse_url s)

  -- The loop over the URIs of a request.
  unfoldable pub all_valid : List String → Bool
  all_valid [] = true
  all_valid (u ∷ rest) = valid_redirect_uri u && all_valid rest

  abbrev pub client_event : Client → Event
  client_event c = record {
    type = client_registered;
    principal = "";
    client = c.name;
    resource = "";
    via = "";
  }

  unfoldable pub register_client : Server → RegisterRequest → Handler (World env.S)
  register_client s req =
      on (Clients.register req.redirect_uris req.client_name)
        (λ c w. (reply 201 (registration c.id c.redirect_uris c.name), event s (client_event c) w))
        (λ _ w. (oauth_error_reply 500 "server_error" "could not register client", w))

  -- The checks on the decoded body.
  unfoldable pub register_body : Server → Option RegisterRequest → Handler (World env.S)
  register_body s none w =
      (oauth_error_reply 400 "invalid_client_metadata" "request body is not valid JSON", w)
  register_body s (some req) w =
      if is_empty req.redirect_uris
      then (oauth_error_reply 400 "invalid_redirect_uri" "redirect_uris is required", w)
      else if not (all_valid req.redirect_uris)
      then (
        oauth_error_reply 400 "invalid_redirect_uri"
            "redirect_uri must be absolute https, or http on a loopback host",
        w,
      )
      else register_client s req w

  -- handleRegister
  unfoldable pub handle_register : Server → String → Option RegisterRequest → Handler (World env.S)
  handle_register s method body w =
      if not (method == "POST") then (method_not_allowed, w) else register_body s body w

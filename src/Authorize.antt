-- ===== src/Authorize.antt =====
-- authorize.go: the gates of an authorization request, its form, its redirects, and the issue of the
-- code; with the pages of authorize_page.go as the data that their templates are given.
pub mod Laws
pub mod Redirects
pub mod Gates
pub mod Issued
use lib_agent_oauth.Prelude.{
  String, Bool, true, false, not, ◌||◌, Option, none, some, List, [], ◌∷◌, ◌==◌, if◌then◌else◌,
}
use lib_agent_oauth.Map
use lib_agent_oauth.Map.{Map}
use lib_agent_oauth.Exec.{Result, ok, err}
use lib_agent_oauth.Env.{Env}
use lib_agent_oauth.Model.{World, M, PrincipalGrant, AuthGrant, Event, authorized}
use lib_agent_oauth.Http.{
  Values, get, Url, Request, Cookie, Reply, reply, error_page, approval_form, redirect, Handler, on,
}
use lib_agent_oauth.AuthCode
use lib_agent_oauth.AuthCode.{default_auth_code_ttl}
use lib_agent_oauth.Clients
use lib_agent_oauth.Clients.{Client, allows_redirect}
use lib_agent_oauth.Enrollment.{Enrollment}
use lib_agent_oauth.Identity.{session_principal, maybe_start_session, code_entered}
use lib_agent_oauth.Pkce.{pkce_method_s256}
use lib_agent_oauth.Principal.Verify.{verify_principal}
use lib_agent_oauth.Server.{Server, resolve_resource, enrollment_for, event}
use lib_agent_oauth.AuthParams.{AuthParams, hidden_fields}

-- authorizeErrorPage
abbrev pub authorize_error_page : String → Reply
authorize_error_page msg = reply 400 (error_page msg)

-- `e != nil`
abbrev pub is_configured : Option Enrollment → Bool
is_configured none = false
is_configured (some e) = true

-- renderForm
abbrev pub render_form : Server → Client → AuthParams → String → String → Reply
render_form s client p msg session_name = reply 200 (
    approval_form (record {
      client_name = client.name;
      error = msg;
      session_name = session_name;
      offer_update = is_configured (enrollment_for s p.resource);
      hidden = hidden_fields p;
    }))

-- validateAuthParams
unfoldable pub validate_auth_params : AuthParams → String
validate_auth_params p =
    if not (p.response_type == "code")
    then "unsupported_response_type"
    else if p.code_challenge == "" || not (p.code_challenge_method == pkce_method_s256)
    then "invalid_request"
    else ""

-- `s.scopes[0]`; `New` leaves no server without a scope.
abbrev pub first_scope : List String → String
first_scope [] = ""
first_scope (scope ∷ _) = scope

-- grantedScope
unfoldable pub granted_scope : Server → String → String
granted_scope s requested = if not (requested == "") then requested else first_scope s.scopes

-- identityVia
unfoldable pub identity_via : Values → String
identity_via form = if code_entered form then "code" else "session"

-- The audience of a request, and of an event: the zero text where it is not served.
abbrev pub served_resource : Option String → String
served_resource none = ""
served_resource (some r) = r

-- eventResource
unfoldable pub event_resource : Server → AuthParams → String
event_resource s p = served_resource (resolve_resource s.audiences p.resource)

-- The label of an identity.
abbrev pub identity_name : Option PrincipalGrant → String
identity_name none = ""
identity_name (some p) = if p.name == "" then "operator" else p.name

-- `q.Set("state", p.state)`, if there is a state.
abbrev pub with_state : String → Map String → Map String
with_state state q = if state == "" then q else Map.insert "state" state q

module _ ⦃env : Env⦄ where
  -- The redirect to a parsed URI, with one parameter more and the state.
  abbrev pub redirect_to : Option Url → AuthParams → String → String → Reply
  redirect_to none p k v = authorize_error_page "invalid redirect_uri"
  redirect_to (some u) p k v =
      reply 302 (redirect (record u { query = with_state p.state (Map.insert k v u.query) }))

  -- redirectWith, which every caller gives one parameter.
  unfoldable pub redirect_with : AuthParams → String → String → Reply
  redirect_with p k v = redirect_to (env.parse_url p.redirect_uri) p k v

  -- redirectError
  abbrev pub redirect_error : AuthParams → String → Reply
  redirect_error p code = redirect_with p "error" code

  -- The registered client, if it allows the redirect URI.
  unfoldable pub check_client : AuthParams → Result (Option Client) → Result Client
  check_client p (err e) = err "internal error looking up the client"
  check_client p (ok none) = err "unknown client_id"
  check_client p (ok (some c)) =
      if p.redirect_uri == "" || not (allows_redirect c p.redirect_uri)
      then err "redirect_uri is not registered for this client"
      else ok c

  -- validateClientRedirect; an error is fatal.
  unfoldable pub validate_client_redirect : AuthParams → M Client
  validate_client_redirect p w =
      if p.client_id == ""
      then (err "missing client_id", w)
      else (let (r, w') = Clients.get p.client_id w in (check_client p r, w'))

  -- The last gate: the audience must be served.
  abbrev pub gate_resource :
      AuthParams → Option String → Handler (World env.S) → Handler (World env.S)
  gate_resource p none next w = (redirect_error p "invalid_target", w)
  gate_resource p (some r) next w = next w

  -- The gates after the client is known.
  unfoldable pub gate_params : Server → AuthParams → Handler (World env.S) → Handler (World env.S)
  gate_params s p next w =
      if not (validate_auth_params p == "")
      then (redirect_error p (validate_auth_params p), w)
      else gate_resource p (resolve_resource s.audiences p.resource) next w

  -- validatedRequest, and what its caller does with the client.
  unfoldable pub validated_request :
      Server → AuthParams → (Client → Handler (World env.S)) → Handler (World env.S)
  validated_request s p next =
      on (validate_client_redirect p) (λ client. gate_params s p (next client))
        (λ msg w. (authorize_error_page msg, w))

  -- sessionName, and what its caller does with the name.
  unfoldable pub session_name :
      Server → Request → (String → Handler (World env.S)) → Handler (World env.S)
  session_name s r next = on (session_principal s r) (λ p. next (identity_name p)) (λ _. next "")

  -- authorizeForm
  unfoldable pub authorize_form : Server → Request → AuthParams → Handler (World env.S)
  authorize_form s r p =
      validated_request s p
        λ client. session_name s r λ name. λ w. (render_form s client p "" name, w)

  -- verifyIdentity
  unfoldable pub verify_identity : Server → Request → Values → M (Option PrincipalGrant)
  verify_identity s r form =
      if code_entered form
      then verify_principal (get form "pairing_code")
      else session_principal s r

  -- The grant that a code carries.
  abbrev pub code_grant : Server → Client → AuthParams → PrincipalGrant → AuthGrant
  code_grant s client p principal = record {
    client_id = client.id;
    redirect_uri = p.redirect_uri;
    code_challenge = p.code_challenge;
    code_challenge_method = p.code_challenge_method;
    scope = granted_scope s p.scope;
    resource = event_resource s p;
    principal = principal;
    expires_at = 0;
  }

  abbrev pub authorized_event : Server → Values → Client → AuthParams → PrincipalGrant → Event
  authorized_event s form client p principal = record {
    type = authorized;
    principal = principal.name;
    client = client.name;
    resource = event_resource s p;
    via = identity_via form;
  }

  -- The issue of the code and the redirect, on a reply that has the cookie `c`.
  unfoldable pub issue_code :
      Server → Client → AuthParams → PrincipalGrant → Option Cookie → Handler (World env.S)
  issue_code s client p principal c =
      on (AuthCode.issue default_auth_code_ttl (code_grant s client p principal))
        (λ code w. (record (redirect_with p "code" code) { cookie = c }, w))
        (λ _ w. (
          record (authorize_error_page "internal error issuing the authorization code") {
            cookie = c;
          },
          w,
        ))

  -- issueAndRedirect
  unfoldable pub issue_and_redirect :
      Server → Values → Client → AuthParams → PrincipalGrant → Handler (World env.S)
  issue_and_redirect s form client p principal w =
      let (c, w') = maybe_start_session s form principal w in
      issue_code s client p principal c (event s (authorized_event s form client p principal) w')

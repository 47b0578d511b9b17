-- ===== src/Grant.antt =====
-- grant.go: the token endpoint.
pub mod Issue
pub mod Keeps
pub mod Code
pub mod Replay
pub mod Rotation
pub mod Succeeds
pub mod Outlives
use lib_agent_oauth.Prelude.{
  ℕ, ◌/◌, String, Bool, true, false, not, ◌||◌, ◌&&◌, Option, none, some, ◌==◌, if◌then◌else◌,
}
use lib_agent_oauth.Map.{Map}
use lib_agent_oauth.Env.{Env}
use lib_agent_oauth.Model.{World, PrincipalGrant, AuthGrant}
use lib_agent_oauth.Http.{
  Values, get, Request, Reply, reply, token_response, oauth_error_reply, method_not_allowed,
  Handler, on,
}
use lib_agent_oauth.AuthCode.{consume}
use lib_agent_oauth.Refresh
use lib_agent_oauth.Refresh.Codec.{RefreshGrant}
use lib_agent_oauth.Pkce.{verify_pkce}
use lib_agent_oauth.Token.{mint_for}
use lib_agent_oauth.Server.{Server}

abbrev pub bad_grant : String → Reply
bad_grant desc = oauth_error_reply 400 "invalid_grant" desc

abbrev pub server_error : String → Reply
server_error desc = oauth_error_reply 500 "server_error" desc

-- The grant that rides in the token: the stored binding, projected for the resource.
abbrev pub project :
    Option (Map String → String → Map String) → PrincipalGrant → String → PrincipalGrant
project none p resource = p
project (some f) p resource = record p { binding = f p.binding resource }

module _ ⦃env : Env⦄ where
  -- issueTokens. The refresh token keeps the original principal.
  unfoldable pub issue_tokens :
      Server → String → String → String → PrincipalGrant → Handler (World env.S)
  issue_tokens s client_id scope resource p =
      on (mint_for s.issuer client_id scope resource (project s.binding_for_resource p resource))
        (λ access.
          on (Refresh.issue client_id scope resource p)
            (λ refresh w. (
              reply 200 (
                  token_response (record {
                    access_token = access;
                    expires_in = s.issuer.ttl / 1000000000;
                    refresh_token = refresh;
                    scope = scope;
                  })),
              w,
            ))
            (λ _ w. (server_error "could not issue refresh token", w)))
        (λ _ w. (server_error "could not issue access token", w))

  -- The checks on a consumed code.
  unfoldable pub exchange_code : Server → Values → Option AuthGrant → Handler (World env.S)
  exchange_code s form none w = (bad_grant "authorization code is invalid or expired", w)
  exchange_code s form (some g) w =
      if not (g.client_id == get form "client_id")
        || not (g.redirect_uri == get form "redirect_uri")
      then (bad_grant "client_id or redirect_uri does not match the code", w)
      else if not (verify_pkce g.code_challenge g.code_challenge_method (get form "code_verifier"))
      then (bad_grant "PKCE verification failed", w)
      else issue_tokens s g.client_id g.scope g.resource g.principal w

  -- grantAuthCode; `consume` does not fail.
  unfoldable pub grant_auth_code : Server → Values → Handler (World env.S)
  grant_auth_code s form =
      on (consume (get form "code")) (exchange_code s form) (λ _ w. (bad_grant "", w))

  -- The checks on an exchanged refresh token.
  unfoldable pub exchange_refresh : Server → Values → Option RefreshGrant → Handler (World env.S)
  exchange_refresh s form none w = (bad_grant "refresh_token is invalid", w)
  exchange_refresh s form (some g) w =
      if not (get form "client_id" == "") && not (get form "client_id" == g.client_id)
      then (bad_grant "client_id does not match the refresh token", w)
      else issue_tokens s g.client_id g.scope g.resource g.principal w

  -- grantRefresh
  unfoldable pub grant_refresh : Server → Values → Handler (World env.S)
  grant_refresh s form =
      on (Refresh.exchange (get form "refresh_token")) (exchange_refresh s form)
        (λ _ w. (server_error "could not read refresh token", w))

  -- The switch on `grant_type`.
  unfoldable pub dispatch_grant : Server → Option Values → Handler (World env.S)
  dispatch_grant s none w = (oauth_error_reply 400 "invalid_request" "could not parse the form", w)
  dispatch_grant s (some form) w =
      if get form "grant_type" == "authorization_code"
      then grant_auth_code s form w
      else if get form "grant_type" == "refresh_token"
      then grant_refresh s form w
      else (
        oauth_error_reply 400 "unsupported_grant_type"
            "supported: authorization_code, refresh_token",
        w,
      )

  -- handleToken
  unfoldable pub handle_token : Server → Request → Handler (World env.S)
  handle_token s r w =
      if not (r.method == "POST") then (method_not_allowed, w) else dispatch_grant s r.form w

-- ===== src/System/Authorized.antt =====
-- The flow as a whole, from the approval of a request to the tokens for its code.
use lib_agent_oauth.Prelude.{◌+◌, ◌≤◌, ◌≡◌, sym, ap, subst, ◌∙◌, true, some, []}
use lib_agent_oauth.Env.{Env}
use lib_agent_oauth.Model.{World, AuthGrant}
use lib_agent_oauth.Http.{Values, get, Request, Reply}
use lib_agent_oauth.AuthCode.{default_auth_code_ttl}
use lib_agent_oauth.Server.{Server}
use lib_agent_oauth.Pkce.{verify_pkce}
use lib_agent_oauth.AuthParams.{parse_auth_params}
use lib_agent_oauth.Authorize.{event_resource, served_resource}
use lib_agent_oauth.Grant.{handle_token}
use lib_agent_oauth.Grant.Code.{Redeemed, handle_token-Redeemed}
use lib_agent_oauth.System.{Reaches}
use lib_agent_oauth.System.Origin.{HasOrigin, reachable-HasOrigins}

module _ ⦃env : Env⦄ where
  -- What stands behind tokens for the code in `form`: an approved authorization request for this
  -- code, not more than a minute before, of the same client and redirect URI, whose challenge the
  -- verifier proves; the tokens are for the audience and the grant of that approval.
  pub record IsAuthorized (s : Server) (start : World env.S) (form : Values) (w : World env.S)
      (rep : Reply) (w' : World env.S) : Type 0 where
    pub done : Redeemed s form w rep w'
    pub origin : HasOrigin s start w.now (get form "code") done.grant
    pub timely : w.now ≤ origin.at.now + default_auth_code_ttl
    pub client : origin.approval.client.id ≡ get form "client_id"
    pub redirect_uri : get origin.form "redirect_uri" ≡ get form "redirect_uri"
    pub proof :
        verify_pkce
          (get origin.form "code_challenge")
          (get origin.form "code_challenge_method")
          (get form "code_verifier")
        ≡ true
    pub principal : done.grant.principal ≡ origin.approval.grant
    pub resource : done.grant.resource ≡ origin.approval.served.resource

  authorized :
      (s : Server) (start w w' : World env.S) (form : Values) (rep : Reply)
      (done : Redeemed s form w rep w')
      → HasOrigin s start w.now (get form "code") done.grant
      → IsAuthorized s start form w rep w'
  unfolding parse_auth_params event_resource
  authorized s start w w' form rep done o =
      let fresh = done.fresh in
      let ends = ap (λ (g : AuthGrant). g.expires_at) o.grant in
      record {
        done = done;
        origin = o;
        timely = subst (λ n. w.now ≤ n) ends fresh;
        client = sym (ap (λ (g : AuthGrant). g.client_id) o.grant) ∙ done.client;
        redirect_uri = sym (ap (λ (g : AuthGrant). g.redirect_uri) o.grant) ∙ done.redirect_uri;
        proof =
            subst
              (λ (g : AuthGrant).
                verify_pkce g.code_challenge g.code_challenge_method (get form "code_verifier")
                ≡ true)
              o.grant done.proof;
        principal = ap (λ (g : AuthGrant). g.principal) o.grant;
        resource =
            ap (λ (g : AuthGrant). g.resource) o.grant
            ∙ ap served_resource o.approval.served.served;
      }

  -- Where a server that started without codes answers an authorization_code request with tokens, an
  -- authorization request for that code was approved, not more than a minute before: a verified
  -- identity, a client that is the one of the token request and allows the redirect URI, which is
  -- the one of the token request, and a challenge that the verifier proves. The tokens are for the
  -- grant and the served audience of that approval.
  pub handle_token-IsAuthorized :
      (s : Server) (start w w' : World env.S) (r : Request) (form : Values) (rep : Reply)
      → start.codes ≡ []
      → Reaches s start w
      → r.form ≡ some form
      → get form "grant_type" ≡ "authorization_code"
      → handle_token s r w ≡ (rep, w')
      → rep.status ≡ 200
      → IsAuthorized s start form w rep w'
  handle_token-IsAuthorized s start w w' r form rep none_yet reached parsed kind h success =
      let (_, done) = handle_token-Redeemed s r form w w' rep parsed kind h success in
      authorized s start w w' form rep done (
        (reachable-HasOrigins s start w none_yet reached).origin (get form "code") done.grant
          done.stored)

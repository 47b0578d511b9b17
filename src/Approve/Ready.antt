-- ===== src/Approve/Ready.antt =====
-- authorize.go: an approval that nothing stands against, at the gates.
use lib_agent_oauth.Prelude.{
  ℕ, String, ◌≡◌, ◌≢◌, refl, ◌∙◌, ◌⊎◌, true, false, none, some, List, [], ne_test, contains,
}
use lib_agent_oauth.Exec.{ok}
use lib_agent_oauth.Env.{Env}
use lib_agent_oauth.Model.{World, PrincipalGrant, is_empty}
use lib_agent_oauth.Http.{Url, Values, get, Request, Handler}
use lib_agent_oauth.Http.Laws.{on-ok}
use lib_agent_oauth.Clients
use lib_agent_oauth.Clients.{Client, allows_redirect}
use lib_agent_oauth.Server.{Server, resolve_resource, enrollment_for, projected_binding}
use lib_agent_oauth.AuthParams.{AuthParams, parse_auth_params, classify_step, initial_approval}
use lib_agent_oauth.Choose.{set_valued_keys}
use lib_agent_oauth.Authorize.{
  validate_auth_params, check_client, validate_client_redirect, gate_params, validated_request,
  verify_identity,
}
use lib_agent_oauth.Authorize.Laws.{IsCodeRequest}

module _ ⦃env : Env⦄ where
  -- An approval that nothing stands against: a POST for a code, from a registered client, with a
  -- redirect URI that it allows and that can be parsed, for a served audience, in its first round,
  -- by an identity that is verified, that need not enroll and has no set to choose from.
  pub record IsReady (s : Server) (r : Request) (form : Values) (w : World env.S) : Type 0 where
    pub method : r.method ≡ "POST"
    pub parsed : r.form ≡ some form
    pub client_id : get form "client_id" ≢ ""
    pub client : Client
    pub at : World env.S
    pub registered : Clients.get (get form "client_id") w ≡ (ok (some client), at)
    pub some_uri : get form "redirect_uri" ≢ ""
    pub allowed : contains client.redirect_uris (get form "redirect_uri") ≡ true
    pub url : Url
    pub parses : env.parse_url (get form "redirect_uri") ≡ some url
    pub code_request : IsCodeRequest (parse_auth_params form)
    pub resource : String
    pub served : resolve_resource s.audiences (get form "resource") ≡ some resource
    pub first_round : classify_step form ≡ initial_approval
    pub identity : PrincipalGrant
    pub after : World env.S
    pub verified : verify_identity s r form at ≡ (ok (some identity), after)
    pub bound :
        (enrollment_for s (get form "resource") ≡ none)
        ⊎ (identity.name ≡ "")
        ⊎ ((is_empty (projected_binding s identity.binding (get form "resource")) ≡ false)
            × (get form "update_credentials" ≡ ""))
    pub no_sets : (identity.name ≡ "") ⊎ (set_valued_keys identity.binding ≡ [])

  -- `rand.Read` does not fail.
  pub record NeverFails : Type 0 where
    pub draws : (n k : ℕ) → (b : List ℕ) × (env.entropy n k ≡ some b)

  pub validate_client-ok :
      (p : AuthParams) (w v : World env.S) (c : Client)
      → p.client_id ≢ ""
      → p.redirect_uri ≢ ""
      → Clients.get p.client_id w ≡ (ok (some c), v)
      → contains c.redirect_uris p.redirect_uri ≡ true
      → validate_client_redirect p w ≡ (ok c, v)
  unfolding validate_client_redirect check_client allows_redirect
  validate_client-ok p w v c named some_uri found allowed =
      rw (ne_test p.client_id "" named)
        (rw found (rw (ne_test p.redirect_uri "" some_uri) (rw allowed refl)))

  gates-ok :
      (s : Server) (p : AuthParams) (next : Handler (World env.S)) (w : World env.S) (x : String)
      → IsCodeRequest p
      → resolve_resource s.audiences p.resource ≡ some x
      → gate_params s p next w ≡ next w
  unfolding gate_params validate_auth_params
  gates-ok s p next w x q served =
      rw q.response_type
        (rw (ne_test p.code_challenge "" q.challenge) (rw q.challenge_method (rw served refl)))

  pub validated-ok :
      (s : Server) (p : AuthParams) (next : Client → Handler (World env.S)) (w v : World env.S)
      (c : Client) (x : String)
      → validate_client_redirect p w ≡ (ok c, v)
      → IsCodeRequest p
      → resolve_resource s.audiences p.resource ≡ some x
      → validated_request s p next w ≡ next c v
  unfolding validated_request
  validated-ok s p next w v c x ready q served =
      on-ok (validate_client_redirect p) _ _ w v c ready ∙ gates-ok s p (next c) v x q served

-- ===== src/Authorize/Gates.antt =====
-- How a request fares at the gates.
use lib_agent_oauth.Prelude.{
  String, ◌≡◌, ◌≢◌, refl, sym, ap, subst, ◌∙◌, ◌⊎◌, inl, inr, true, Bool-cases, some, Option-cases,
  ◌==◌, contains,
}
use lib_agent_oauth.Exec.{ok}
use lib_agent_oauth.Env.{Env}
use lib_agent_oauth.Model.{World}
use lib_agent_oauth.Http.{Url, redirect, Reply, Handler}
use lib_agent_oauth.Http.Laws.{on-cases}
use lib_agent_oauth.Clients
use lib_agent_oauth.Clients.{Client}
use lib_agent_oauth.Frame.{codes_and_now, codes_and_now-IsFrame, kept}
use lib_agent_oauth.Grant.Issue.{reply_of, state_of}
use lib_agent_oauth.Server.{Server, resolve_resource}
use lib_agent_oauth.AuthParams.{AuthParams}
use lib_agent_oauth.Authorize.{
  validate_auth_params, redirect_with, authorize_error_page, validate_client_redirect, gate_params,
  validated_request,
}
use lib_agent_oauth.Authorize.Laws.{
  IsCodeRequest, validate_auth_params-IsCodeRequest, validate_client_redirect-ok,
  validate_client_redirect-Keeps,
}
use lib_agent_oauth.Authorize.Redirects.{NoRedirect, GoesTo, redirect_with-GoesTo}

module _ ⦃env : Env⦄ where
  -- The client of the request is registered under its id and allows the redirect URI.
  pub record Allows (p : AuthParams) (client : Client) (w v : World env.S) : Type 0 where
    pub found : Clients.get p.client_id w ≡ (ok (some client), v)
    pub allowed : contains client.redirect_uris p.redirect_uri ≡ true

  -- A reply that changes neither the codes nor the time.
  pub record Quiet (w w' : World env.S) : Type 0 where
    pub same : codes_and_now w' ≡ codes_and_now w

  module _ (s : Server) (p : AuthParams) where
    -- What holds behind the last gate: a code is asked for with an S256 challenge, and the audience
    -- is served.
    pub record IsServed : Type 0 where
      pub params : IsCodeRequest p
      pub resource : String
      pub served : resolve_resource s.audiences p.resource ≡ some resource

    gate-cases :
        (next : Handler (World env.S)) (v w' : World env.S) (rep : Reply)
        → gate_params s p next v ≡ (rep, w')
        → (Quiet v w' × GoesTo p rep.body) ⊎ (IsServed × (next v ≡ (rep, w')))
    unfolding gate_params
    gate-cases next v w' rep h = elim (Bool-cases (validate_auth_params p == "")) [
      | inr bad ↦ inl (refused (validate_auth_params p) (rw bad at h))
      | inl good ↦ elim (Option-cases (resolve_resource s.audiences p.resource)) [
        | inl unserved ↦ inl (refused "invalid_target" (rw (good, unserved) at h))
        | inr (resource, found) ↦ inr (
          record {
            params = validate_auth_params-IsCodeRequest p good;
            resource = resource;
            served = found;
          },
          rw (good, found) at h,
        )
      ]
    ]
      where
        refused :
            (msg : String)
            → ◌≡◌ {A = Reply × World env.S} (redirect_with p "error" msg, v) (rep, w')
            → Quiet v w' × GoesTo p rep.body
        refused msg e = (
          record { same = ap codes_and_now (sym (state_of e)) },
          subst (λ (r : Reply). GoesTo p r.body) (reply_of e)
              (redirect_with-GoesTo p "error" msg (inr refl)),
        )

    -- A validated request: it is refused with a page, or with a redirect to a client that allows it,
    -- or it goes on with such a client; until then neither the codes nor the time are changed.
    pub validated_request-cases :
        (next : Client → Handler (World env.S)) (w w' : World env.S) (rep : Reply)
        → validated_request s p next w ≡ (rep, w')
        → (Quiet w w' × NoRedirect rep.body)
          ⊎ ((client : Client) × (v : World env.S) × Allows p client w v
              × Quiet w v
              × ((Quiet v w' × GoesTo p rep.body) ⊎ (IsServed × (next client v ≡ (rep, w')))))
    unfolding validated_request NoRedirect
    validated_request-cases next w w' rep h =
        elim (on-cases _ _ (validate_client_redirect p) w w' rep h) [
          | inr (msg, v, e, rest) ↦ inl (
            record {
              same =
                  ap codes_and_now (sym (state_of rest))
                  ∙ kept (validate_client_redirect-Keeps codes_and_now codes_and_now-IsFrame p) e;
            },
            λ u is. shown msg u (ap (λ (r : Reply). r.body) (reply_of rest) ∙ is),
          )
          | inl (client, v, e, rest) ↦
              let (found, allowed) = validate_client_redirect-ok p w v e in
              inr (
                client,
                v,
                record { found = found; allowed = allowed },
                record {
                  same =
                      kept (validate_client_redirect-Keeps codes_and_now codes_and_now-IsFrame p) e;
                },
                gate-cases (next client) v w' rep rest,
              )
        ]
      where
        shown : (msg : String) (u : Url) → (authorize_error_page msg).body ≢ redirect u
        shown msg u h = cc

-- ===== src/Approve/Outcome.antt =====
-- The authorization endpoint: what a request with given parameters comes to.
use lib_agent_oauth.Prelude.{String, ◌≡◌, sym, ap, subst, ◌∙◌, ◌⊎◌, inl, inr, none, some}
use lib_agent_oauth.Exec.{ok}
use lib_agent_oauth.Exec.Keeps.{Keeps, Keeps-if}
use lib_agent_oauth.Env.{Env}
use lib_agent_oauth.Model.{World, PrincipalGrant}
use lib_agent_oauth.Http.{Values, get, Request, Reply}
use lib_agent_oauth.Http.Laws.{on-cases}
use lib_agent_oauth.Clients.{Client}
use lib_agent_oauth.Frame.{
  codes_and_now, codes_and_now-IsFrame, kept, verify_principal-Keeps, session_principal-Keeps,
}
use lib_agent_oauth.Grant.Issue.{reply_of, state_of}
use lib_agent_oauth.Identity.{session_principal, code_entered}
use lib_agent_oauth.Principal.Verify.{verify_principal}
use lib_agent_oauth.Server.{Server}
use lib_agent_oauth.AuthParams.{AuthParams, parse_auth_params, classify_step}
use lib_agent_oauth.Authorize.{render_form, session_name, authorize_form, verify_identity}
use lib_agent_oauth.Authorize.Gates.{Allows, Quiet, IsServed, validated_request-cases}
use lib_agent_oauth.Authorize.Issued.{Issued, error-NoRedirect}
use lib_agent_oauth.Authorize.Redirects.{NoRedirect, GoesTo, NoRedirect-GoesTo}
use lib_agent_oauth.EnrollFlow.{show}
use lib_agent_oauth.Approve.{approve_identity, authorize_submit}
use lib_agent_oauth.EnrollFlow.Laws.{Outcome, Outcome-from}
use lib_agent_oauth.Approve.Authority.{Entitled}
use lib_agent_oauth.Approve.Submit.{approve-Outcome}

module _ ⦃env : Env⦄ where
  -- What stands behind a code that is issued: the form of a POST, a registered client that allows the
  -- redirect URI, a code request with an S256 challenge for a served audience, an identity that has
  -- just been verified, and a grant that the identity is entitled to.
  pub record Approval (s : Server) (r : Request) (form : Values) (w : World env.S) (rep : Reply)
      (w' : World env.S) : Type 0 where
    pub client : Client
    pub at : World env.S
    pub allows : Allows (parse_auth_params form) client w at
    pub served : IsServed s (parse_auth_params form)
    pub identity : PrincipalGrant
    pub after : World env.S
    pub verified : verify_identity s r form at ≡ (ok (some identity), after)
    pub grant : PrincipalGrant
    pub entitled : Entitled s form (parse_auth_params form) identity grant
    pub issued : Issued s client (parse_auth_params form) grant w rep w'

  verify_identity-Keeps :
      (s : Server) (r : Request) (form : Values) → Keeps codes_and_now (verify_identity s r form)
  unfolding verify_identity
  verify_identity-Keeps s r form =
      Keeps-if codes_and_now (code_entered form) (verify_principal (get form "pairing_code"))
        (session_principal s r)
        (verify_principal-Keeps codes_and_now codes_and_now-IsFrame (get form "pairing_code"))
        (session_principal-Keeps codes_and_now codes_and_now-IsFrame s r)

  Quiet-trans : {u v w : World env.S} → Quiet u v → Quiet v w → Quiet u w
  Quiet-trans a b = record { same = b.same ∙ a.same }

  -- What a request with the parameters `p` comes to, `P` being what holds where a code is issued.
  abbrev pub RequestOutcome : (P : Type 0) → AuthParams → World env.S → Reply → World env.S → Type 0
  RequestOutcome P p w rep w' =
      (Quiet w w' × NoRedirect rep.body)
      ⊎ ((client : Client) × (v : World env.S) × Allows p client w v
          × GoesTo p rep.body
          × (Quiet w w' ⊎ P))

  form-NoRedirect :
      (s : Server) (client : Client) (p : AuthParams) (msg name : String)
      → NoRedirect (render_form s client p msg name).body
  unfolding NoRedirect
  form-NoRedirect s client p msg name u e = cc

  shown-Quiet :
      (p : AuthParams) (page rep : Reply) (w w' : World env.S)
      → NoRedirect page.body
      → show page w ≡ (rep, w')
      → Quiet w w' × GoesTo p rep.body
  shown-Quiet p page rep w w' nowhere h = (
    record { same = ap codes_and_now (sym (state_of h)) },
    subst (λ (r : Reply). GoesTo p r.body) (reply_of h) (NoRedirect-GoesTo p page.body nowhere),
  )

  session_name-Quiet :
      (s : Server) (r : Request) (client : Client) (p : AuthParams) (w w' : World env.S)
      (rep : Reply)
      → session_name s r (λ name. show (render_form s client p "" name)) w ≡ (rep, w')
      → Quiet w w' × GoesTo p rep.body
  unfolding session_name
  session_name-Quiet s r client p w w' rep h =
      elim (on-cases _ _ (session_principal s r) w w' rep h) [
        | inl (o, v, e, rest) ↦
            let (quiet, goes) = shown-Quiet p _ rep v w' (form-NoRedirect s client p "" _) rest in
            (
              record {
                same =
                    quiet.same
                    ∙ kept (session_principal-Keeps codes_and_now codes_and_now-IsFrame s r) e;
              },
              goes,
            )
        | inr (msg, v, e, rest) ↦
            let (quiet, goes) = shown-Quiet p _ rep v w' (form-NoRedirect s client p "" _) rest in
            (
              record {
                same =
                    quiet.same
                    ∙ kept (session_principal-Keeps codes_and_now codes_and_now-IsFrame s r) e;
              },
              goes,
            )
      ]

  -- The form of a GET issues no code.
  pub authorize_form-outcome :
      (s : Server) (r : Request) (p : AuthParams) (w w' : World env.S) (rep : Reply)
      → authorize_form s r p w ≡ (rep, w')
      → RequestOutcome ⊥ p w rep w'
  unfolding authorize_form
  authorize_form-outcome s r p w w' rep h = elim (validated_request-cases s p _ w w' rep h) [
    | inl page ↦ inl page
    | inr (client, v, allows, quiet, inl (refused, goes)) ↦
        inr (client, v, allows, goes, inl (Quiet-trans quiet refused))
    | inr (client, v, allows, quiet, inr (served, rest)) ↦
        let (shown, goes) = session_name-Quiet s r client p v w' rep rest in
        inr (client, v, allows, goes, inl (Quiet-trans quiet shown))
  ]

  -- The approval of a POST.
  pub authorize_submit-outcome :
      (s : Server) (r : Request) (form : Values) (w w' : World env.S) (rep : Reply)
      → authorize_submit s r form (parse_auth_params form) w ≡ (rep, w')
      → RequestOutcome (Approval s r form w rep w') (parse_auth_params form) w rep w'
  unfolding authorize_submit
  authorize_submit-outcome s r form w w' rep h = elim (validated_request-cases s p _ w w' rep h) [
    | inl page ↦ inl page
    | inr (client, v, allows, quiet, inl (refused, goes)) ↦
        inr (client, v, allows, goes, inl (Quiet-trans quiet refused))
    | inr (client, v, allows, quiet, inr (served, rest)) ↦
        elim (on-cases (approve_identity s form client p) _ (verify_identity s r form) v w' rep
          rest) [
            | inr (msg, u, e, last) ↦
                let (shown, goes) = shown-Quiet p _ rep u w' (error-NoRedirect _) last in
                inr (
                  client,
                  v,
                  allows,
                  goes,
                  inl (
                      Quiet-trans quiet
                        (record { same = shown.same ∙ kept (verify_identity-Keeps s r form) e })),
                )
            | inl (none, u, e, last) ↦
                let (shown, goes) =
                  shown-Quiet p _ rep u w' (form-NoRedirect s client p _ _) last in
                inr (
                  client,
                  v,
                  allows,
                  goes,
                  inl (
                      Quiet-trans quiet
                        (record { same = shown.same ∙ kept (verify_identity-Keeps s r form) e })),
                )
            | inl (some identity, u, e, last) ↦ approved client v allows quiet served identity u e (
                Outcome-from _ s client p w u w' rep
                  (kept (verify_identity-Keeps s r form) e ∙ quiet.same)
                  (approve-Outcome s form client p identity (classify_step form) u w' rep last))
          ]
  ]
    where
      p : AuthParams
      p = parse_auth_params form

      approved :
          (client : Client) (v : World env.S)
          → Allows p client w v
          → Quiet w v
          → IsServed s p
          → (identity : PrincipalGrant) (u : World env.S)
          → verify_identity s r form v ≡ (ok (some identity), u)
          → Outcome (Entitled s form p identity) s client p w rep w'
          → RequestOutcome (Approval s r form w rep w') p w rep w'
      approved client v allows quiet served identity u e (goes, inl same) =
          inr (client, v, allows, goes, inl same)
      approved client v allows quiet served identity u e (goes, inr (g, entitled, issued)) = inr (
        client,
        v,
        allows,
        goes,
        inr (record {
          client = client;
          at = v;
          allows = allows;
          served = served;
          identity = identity;
          after = u;
          verified = e;
          grant = g;
          entitled = entitled;
          issued = issued;
        }),
      )

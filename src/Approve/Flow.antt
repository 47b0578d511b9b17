-- ===== src/Approve/Flow.antt =====
-- The authorization endpoint: who gets a code, and where the browser is sent.
use lib_agent_oauth.Prelude.{
  ◌≡◌, refl, sym, ap, ◌∙◌, ◌⊎◌, inl, inr, Bool-cases, Option, none, some, ◌==◌, eq_of_test,
}
use lib_agent_oauth.Env.{Env}
use lib_agent_oauth.Model.{World}
use lib_agent_oauth.Http.{Url, redirect, Values, Request, Reply}
use lib_agent_oauth.Clients.{Client}
use lib_agent_oauth.Frame.{codes_and_now}
use lib_agent_oauth.Grant.Issue.{reply_of, state_of}
use lib_agent_oauth.Server.{Server}
use lib_agent_oauth.AuthParams.{AuthParams, parse_auth_params}
use lib_agent_oauth.Authorize.Gates.{Allows, Quiet}
use lib_agent_oauth.Authorize.Issued.{error-NoRedirect}
use lib_agent_oauth.Authorize.Redirects.{NoRedirect, GoesTo, IsTarget}
use lib_agent_oauth.EnrollFlow.{show}
use lib_agent_oauth.Approve.{submit_parsed, handle_authorize}
use lib_agent_oauth.Approve.Outcome.{
  Approval, RequestOutcome, authorize_form-outcome, authorize_submit-outcome,
}

module _ ⦃env : Env⦄ where
  -- The parameters of a request: those of the query of a GET, or of the form of a POST.
  pub data IsRequested (r : Request) (p : AuthParams) : Type 0 where
    by_query : r.method ≡ "GET" → p ≡ parse_auth_params r.query → IsRequested r p
    by_form :
        (form : Values)
        → r.method ≡ "POST"
        → r.form ≡ some form
        → p ≡ parse_auth_params form
        → IsRequested r p

  -- Every redirect of the authorization endpoint goes to the redirect URI of the request, which its
  -- registered client allows, with the same scheme, host and path, and with the request's state.
  pub record IsSafe (r : Request) (w : World env.S) (u : Url) : Type 0 where
    pub params : AuthParams
    pub requested : IsRequested r params
    pub client : Client
    pub at : World env.S
    pub allows : Allows params client w at
    pub target : IsTarget params u

  -- A request's outcome as a whole.
  abbrev FlowOutcome : Server → Request → World env.S → Reply → World env.S → Type 0
  FlowOutcome s r w rep w' =
      ((u : Url) → rep.body ≡ redirect u → IsSafe r w u)
      × (Quiet w w'
          ⊎ ((form : Values) × (r.method ≡ "POST")
              × (r.form ≡ some form)
              × Approval s r form w rep w'))

  as_flow :
      {P : Type 0} (s : Server) (r : Request) (p : AuthParams) (w w' : World env.S) (rep : Reply)
      → IsRequested r p
      → (P
          → (form : Values) × (r.method ≡ "POST")
            × (r.form ≡ some form)
            × Approval s r form w rep w')
      → RequestOutcome P p w rep w'
      → FlowOutcome s r w rep w'
  unfolding NoRedirect GoesTo
  as_flow s r p w w' rep asked k (inl (quiet, nowhere)) = (λ u b. absurd (nowhere u b), inl quiet)
  as_flow s r p w w' rep asked k (inr (client, v, allows, goes, inl quiet)) = (
    λ u b. record {
      params = p;
      requested = asked;
      client = client;
      at = v;
      allows = allows;
      target = goes u b;
    },
    inl quiet,
  )
  as_flow s r p w w' rep asked k (inr (client, v, allows, goes, inr x)) = (
    λ u b. record {
      params = p;
      requested = asked;
      client = client;
      at = v;
      allows = allows;
      target = goes u b;
    },
    inr (k x),
  )

  shown-flow :
      (s : Server) (r : Request) (w w' : World env.S) (page rep : Reply)
      → NoRedirect page.body
      → show page w ≡ (rep, w')
      → FlowOutcome s r w rep w'
  unfolding NoRedirect
  shown-flow s r w w' page rep nowhere h = (
    λ u b. absurd (nowhere u (ap (λ (x : Reply). x.body) (reply_of h) ∙ b)),
    inl (record { same = ap codes_and_now (sym (state_of h)) }),
  )

  -- A POST, whose form does or does not parse.
  parsed-outcome :
      (s : Server) (r : Request) (o : Option Values) (w w' : World env.S) (rep : Reply)
      → r.method ≡ "POST"
      → r.form ≡ o
      → submit_parsed s r o w ≡ (rep, w')
      → FlowOutcome s r w rep w'
  unfolding NoRedirect
  parsed-outcome s r none w w' rep post parsed h = shown-flow s r w w' _ rep (error-NoRedirect _) h
  parsed-outcome s r (some form) w w' rep post parsed h =
      as_flow s r (parse_auth_params form) w w' rep (by_form form post parsed refl)
        (λ x. (form, post, parsed, x)) (authorize_submit-outcome s r form w w' rep h)

  flow-outcome :
      (s : Server) (r : Request) (w w' : World env.S) (rep : Reply)
      → handle_authorize s r w ≡ (rep, w')
      → FlowOutcome s r w rep w'
  unfolding handle_authorize NoRedirect
  flow-outcome s r w w' rep h = elim (Bool-cases (r.method == "GET")) [
    | inl read ↦
        as_flow s r (parse_auth_params r.query) w w' rep
          (by_query (eq_of_test r.method "GET" read) refl) (λ x. absurd x)
          (authorize_form-outcome s r (parse_auth_params r.query) w w' rep (rw read at h))
    | inr other ↦ elim (Bool-cases (r.method == "POST")) [
      | inr neither ↦ shown-flow s r w w' _ rep (λ u e. cc) (rw (other, neither) at h)
      | inl post ↦
          parsed-outcome s r r.form w w' rep (eq_of_test r.method "POST" post) refl
            (rw (other, post) at h)
    ]
  ]

  -- The authorization endpoint leaves the codes as they are, or it issues one code, and then
  -- everything that `Approval` lists holds of the request.
  pub handle_authorize-Approval :
      (s : Server) (r : Request) (w w' : World env.S) (rep : Reply)
      → handle_authorize s r w ≡ (rep, w')
      → Quiet w w'
        ⊎ ((form : Values) × (r.method ≡ "POST")
            × (r.form ≡ some form)
            × Approval s r form w rep w')
  handle_authorize-Approval s r w w' rep h = (flow-outcome s r w w' rep h).1

  -- The authorization endpoint redirects only to the redirect URI of the request, which the request's
  -- registered client allows: whatever the request, the browser is sent to that URI or nowhere. The
  -- URL differs from it only in its query, which has one parameter more or replaced, `code` or
  -- `error`, and the request's state if there is one; every other key has the value that it has in
  -- the redirect URI.
  pub handle_authorize-IsSafe :
      (s : Server) (r : Request) (w w' : World env.S) (rep : Reply) (u : Url)
      → handle_authorize s r w ≡ (rep, w')
      → rep.body ≡ redirect u
      → IsSafe r w u
  handle_authorize-IsSafe s r w w' rep u h b = (flow-outcome s r w w' rep h).0 u b

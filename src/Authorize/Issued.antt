-- ===== src/Authorize/Issued.antt =====
-- What the issue of a code does to the codes, and where the browser is sent with it.
use lib_agent_oauth.Prelude.{
  ℕ, ◌+◌, String, ◌≡◌, refl, sym, ap, subst, ◌∙◌, ◌⊎◌, inl, inr, Option, some,
}
use lib_agent_oauth.Map
use lib_agent_oauth.Map.{Map}
use lib_agent_oauth.Env.{Env}
use lib_agent_oauth.Model.{World, PrincipalGrant, AuthGrant}
use lib_agent_oauth.Http.{Url, redirect, Values, Reply, Cookie}
use lib_agent_oauth.Http.Laws.{on-cases}
use lib_agent_oauth.AuthCode
use lib_agent_oauth.AuthCode.{default_auth_code_ttl}
use lib_agent_oauth.AuthCode.Laws.{issue-ok, issue-err, stored_in}
use lib_agent_oauth.Clients.{Client}
use lib_agent_oauth.Frame.{
  codes_and_now, codes_and_now-IsFrame, event-keeps, maybe_start_session-keeps,
}
use lib_agent_oauth.Grant.Issue.{reply_of, state_of}
use lib_agent_oauth.Identity.{maybe_start_session}
use lib_agent_oauth.Server.{Server, event}
use lib_agent_oauth.AuthParams.{AuthParams}
use lib_agent_oauth.Authorize.{
  authorize_error_page, code_grant, authorized_event, issue_code, issue_and_redirect,
}
use lib_agent_oauth.Authorize.Gates.{Quiet}
use lib_agent_oauth.Authorize.Redirects.{
  NoRedirect, GoesTo, redirect_with-GoesTo, NoRedirect-GoesTo, redirect_with-carries,
}

module _ ⦃env : Env⦄ where
  -- A code has been issued for the grant of `principal`, for a minute from now, and nothing else has
  -- happened to the codes; if the browser is redirected, it takes the code along.
  pub record Issued (s : Server) (client : Client) (p : AuthParams) (principal : PrincipalGrant)
      (w : World env.S) (rep : Reply) (w' : World env.S) : Type 0 where
    pub code : String
    pub stored :
        w'.codes
        ≡ Map.insert code
            (record (code_grant s client p principal) {
              expires_at = w.now + default_auth_code_ttl;
            })
            w.codes
    pub now : w'.now ≡ w.now
    pub carried : (u : Url) → rep.body ≡ redirect u → Map.lookup "code" u.query ≡ some code

  abbrev pub IssueOutcome :
      Server → Client → AuthParams → PrincipalGrant → World env.S → Reply → World env.S → Type 0
  IssueOutcome s client p principal w rep w' =
      GoesTo p rep.body × (Quiet w w' ⊎ Issued s client p principal w rep w')

  pub error-NoRedirect : (msg : String) → NoRedirect (authorize_error_page msg).body
  unfolding NoRedirect
  error-NoRedirect msg u h = cc

  issue_code-outcome :
      (s : Server) (client : Client) (p : AuthParams) (principal : PrincipalGrant)
      (c : Option Cookie) (w w' : World env.S) (rep : Reply)
      → issue_code s client p principal c w ≡ (rep, w')
      → IssueOutcome s client p principal w rep w'
  unfolding issue_code
  issue_code-outcome s client p principal c w w' rep h =
      elim (on-cases _ _ (AuthCode.issue default_auth_code_ttl (code_grant s client p principal)) w
        w' rep h) [
          | inl (code, v, e, rest) ↦
              let body = ap (λ (r : Reply). r.body) (reply_of rest) in
              let left : w'
                  ≡ stored_in code (code_grant s client p principal) default_auth_code_ttl _ =
                sym (state_of rest)
                ∙ issue-ok default_auth_code_ttl (code_grant s client p principal) w v e in
              (
                subst (GoesTo p) body (redirect_with-GoesTo p "code" code (inl refl)),
                inr (record {
                  code = code;
                  stored = ap (λ (x : World env.S). x.codes) left;
                  now = ap (λ (x : World env.S). x.now) left;
                  carried = λ u is. redirect_with-carries p "code" code u refl (body ∙ is);
                }),
              )
          | inr (e, v, failed, rest) ↦
              let body = ap (λ (r : Reply). r.body) (reply_of rest) in
              (
                subst (GoesTo p) body (
                    NoRedirect-GoesTo p _
                      (error-NoRedirect "internal error issuing the authorization code")),
                inl (record {
                  same = ap codes_and_now (
                      sym (state_of rest)
                      ∙ issue-err default_auth_code_ttl (code_grant s client p principal) w v
                          failed);
                }),
              )
        ]

  -- An outcome in a state with the same codes and time.
  pub IssueOutcome-from :
      (s : Server) (client : Client) (p : AuthParams) (principal : PrincipalGrant)
      (w v w' : World env.S) (rep : Reply)
      → codes_and_now v ≡ codes_and_now w
      → IssueOutcome s client p principal v rep w'
      → IssueOutcome s client p principal w rep w'
  IssueOutcome-from s client p principal w v w' rep e (goes, inl quiet) =
      (goes, inl (record { same = quiet.same ∙ e }))
  IssueOutcome-from s client p principal w v w' rep e (goes, inr i) = (
    goes,
    inr (record {
      code = i.code;
      stored =
          i.stored
          ∙ ap
              (λ (x : Map AuthGrant × ℕ).
                Map.insert i.code
                  (record (code_grant s client p principal) {
                    expires_at = x.1 + default_auth_code_ttl;
                  })
                  x.0)
              e;
      now = i.now ∙ ap (λ (x : Map AuthGrant × ℕ). x.1) e;
      carried = i.carried;
    }),
  )

  -- The terminal step of the flow, whatever becomes of the session: the browser is redirected to the
  -- request's URI with a code that was just issued for the grant, or no code is issued.
  pub issue_and_redirect-outcome :
      (s : Server) (form : Values) (client : Client) (p : AuthParams) (principal : PrincipalGrant)
      (w w' : World env.S) (rep : Reply)
      → issue_and_redirect s form client p principal w ≡ (rep, w')
      → IssueOutcome s client p principal w rep w'
  unfolding issue_and_redirect
  issue_and_redirect-outcome s form client p principal w w' rep h =
      let v = (maybe_start_session s form principal w).1 in
      let told = authorized_event s form client p principal in
      IssueOutcome-from s client p principal w (event s told v) w' rep
        (event-keeps codes_and_now codes_and_now-IsFrame s told v
          ∙ maybe_start_session-keeps codes_and_now codes_and_now-IsFrame s form principal w)
        (issue_code-outcome s client p principal (maybe_start_session s form principal w).0
          (event s told v) w' rep h)

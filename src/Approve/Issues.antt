-- ===== src/Approve/Issues.antt =====
-- authorize.go: an approval that nothing stands against, to its end.
use lib_agent_oauth.Prelude.{
  suc, ◌+◌, String, ◌≡◌, refl, sym, ap, subst, ◌∙◌, ◌⊎◌, inl, inr, Bool, true, false, Bool-cases,
  Option, none, some, [], ◌==◌, if◌then◌else◌,
}
use lib_agent_oauth.Map
use lib_agent_oauth.Map.{Map, lookup-insert_same}
use lib_agent_oauth.Exec.{ok}
use lib_agent_oauth.Env.{Env}
use lib_agent_oauth.Model.{World, AuthGrant, PrincipalGrant, is_empty}
use lib_agent_oauth.Http.{Url, redirect, Values, get, Request, Reply, Handler, Cookie}
use lib_agent_oauth.Http.Laws.{on-ok}
use lib_agent_oauth.Clients.{Client}
use lib_agent_oauth.Enrollment.{Enrollment}
use lib_agent_oauth.AuthCode
use lib_agent_oauth.AuthCode.{default_auth_code_ttl}
use lib_agent_oauth.AuthCode.Laws.{issue-ok}
use lib_agent_oauth.Encode.{encode64}
use lib_agent_oauth.Random.{rand_token, read_random}
use lib_agent_oauth.Identity.{maybe_start_session}
use lib_agent_oauth.Server.{Server, enrollment_for, projected_binding, event}
use lib_agent_oauth.AuthParams.{AuthParams, parse_auth_params, initial_approval}
use lib_agent_oauth.Choose.{set_valued_keys}
use lib_agent_oauth.Authorize.{
  verify_identity, code_grant, authorized_event, redirect_with, with_state, issue_code,
  issue_and_redirect,
}
use lib_agent_oauth.Approve.{
  granted, divert_step, divert_if, divert_to_enrollment, resolve_set_bindings, issue_resolved,
  divert_or, announce_pairing, approve, authorize_submit, submit_parsed, handle_authorize,
}
use lib_agent_oauth.Approve.Ready.{IsReady, NeverFails, validate_client-ok, validated-ok}

module _ ⦃env : Env⦄ where
  -- The answer to a request that is ready: the browser takes a code to the client, and under the
  -- code there is a grant for the client and the identity.
  pub record GetsCode (s : Server) (p : AuthParams) (url : Url) (client : Client)
      (identity : PrincipalGrant) (rep : Reply) (w' : World env.S) : Type 0 where
    pub code : String
    pub grant : AuthGrant
    pub status : rep.status ≡ 302
    pub sent :
        rep.body
        ≡ redirect (record url { query = with_state p.state (Map.insert "code" code url.query) })
    pub stored : Map.lookup code w'.codes ≡ some grant
    pub for_client : grant.client_id ≡ client.id
    pub for_identity : grant.principal ≡ identity
    pub for_challenge : grant.code_challenge ≡ p.code_challenge

  issue-draws :
      (never : NeverFails) (g : AuthGrant) (w : World env.S)
      → (code : String) × (v : World env.S) × (AuthCode.issue default_auth_code_ttl g w
          ≡ (ok code, v))
  unfolding AuthCode.issue rand_token read_random AuthCode.put
  issue-draws never g w =
      let (b, e) = never.draws w.drawn 32 in
      (
        encode64 b,
        record w {
          drawn = suc w.drawn;
          codes =
              Map.insert (encode64 b) (record g { expires_at = w.now + default_auth_code_ttl })
                w.codes;
        },
        rw e refl,
      )

  issue_code-GetsCode :
      (never : NeverFails) (s : Server) (client : Client) (p : AuthParams) (g : PrincipalGrant)
      (c : Option Cookie) (url : Url) (w : World env.S)
      → env.parse_url p.redirect_uri ≡ some url
      → GetsCode s p url client g (issue_code s client p g c w).0 (issue_code s client p g c w).1
  unfolding issue_code redirect_with
  issue_code-GetsCode never s client p g c url w parses =
      let (code, v, e) = issue-draws never (code_grant s client p g) w in
      subst (λ (x : Reply × World env.S). GetsCode s p url client g x.0 x.1)
        (sym
          (on-ok (AuthCode.issue default_auth_code_ttl (code_grant s client p g)) _ _ w v code e))
        (record {
          code = code;
          grant = record (code_grant s client p g) { expires_at = w.now + default_auth_code_ttl };
          status = rw parses refl;
          sent = rw parses refl;
          stored =
              ap (λ (x : World env.S). Map.lookup code x.codes)
                (issue-ok default_auth_code_ttl (code_grant s client p g) w v e)
              ∙ lookup-insert_same code _ w.codes;
          for_client = refl;
          for_identity = refl;
          for_challenge = refl;
        })

  issue_and_redirect-GetsCode :
      (never : NeverFails) (s : Server) (form : Values) (client : Client) (p : AuthParams)
      (g : PrincipalGrant) (url : Url) (w : World env.S)
      → env.parse_url p.redirect_uri ≡ some url
      → GetsCode s p url client g
          (issue_and_redirect s form client p g w).0
          (issue_and_redirect s form client p g w).1
  unfolding issue_and_redirect
  issue_and_redirect-GetsCode never s form client p g url w parses =
      issue_code-GetsCode never s client p g (maybe_start_session s form g w).0 url
        (event s (authorized_event s form client p g) (maybe_start_session s form g w).1) parses

  -- Nobody is diverted who need not enroll.
  not_diverted :
      (s : Server) (form : Values) (client : Client) (p : AuthParams) (g : PrincipalGrant)
      → (enrollment_for s p.resource ≡ none)
        ⊎ (g.name ≡ "")
        ⊎ ((is_empty (projected_binding s g.binding p.resource) ≡ false)
            × (get form "update_credentials" ≡ ""))
      → divert_to_enrollment s form client p g initial_approval ≡ none
  unfolding divert_to_enrollment divert_step
  not_diverted s form client p g (inl unasked) = rw unasked refl
  not_diverted s form client p g (inr (inl anonymous)) = whatever (enrollment_for s p.resource)
    where
      whatever : (o : Option Enrollment) → divert_if s form client p g initial_approval o ≡ none
      whatever none = refl
      whatever (some e) = rw anonymous refl
  not_diverted s form client p g (inr (inr (bound, no_update))) =
      whatever (enrollment_for s p.resource)
    where
      whatever : (o : Option Enrollment) → divert_if s form client p g initial_approval o ≡ none
      whatever none = refl
      whatever (some e) = elim (Bool-cases (g.name == "")) [
        | inl anonymous ↦ rw anonymous refl
        | inr named ↦ rw named (rw bound (rw no_update refl))
      ]

  as_it_is :
      (form : Values) (client : Client) (p : AuthParams) (g : PrincipalGrant)
      → (g.name ≡ "") ⊎ (set_valued_keys g.binding ≡ [])
      → resolve_set_bindings form client p g initial_approval ≡ granted g
  unfolding resolve_set_bindings
  as_it_is form client p g (inl anonymous) = rw anonymous refl
  as_it_is form client p g (inr no_sets) = elim (Bool-cases (g.name == "")) [
    | inl anonymous ↦ rw anonymous refl
    | inr named ↦ rw named (rw no_sets refl)
  ]

  approve-GetsCode :
      (never : NeverFails) (s : Server) (form : Values) (client : Client) (p : AuthParams)
      (g : PrincipalGrant) (url : Url) (w : World env.S)
      → env.parse_url p.redirect_uri ≡ some url
      → divert_to_enrollment s form client p g initial_approval ≡ none
      → resolve_set_bindings form client p g initial_approval ≡ granted g
      → GetsCode s p url client g
          (approve s form client p g initial_approval w).0
          (approve s form client p g initial_approval w).1
  unfolding approve
  approve-GetsCode never s form client p g url w parses stays plain =
      let next = announce_pairing s form client p g initial_approval w in
      subst (λ (h : Handler (World env.S)). GetsCode s p url client g (h next).0 (h next).1)
        (sym (
          ap
            (λ o. divert_or o (
              issue_resolved s form client p
                (resolve_set_bindings form client p g initial_approval)))
            stays
          ∙ ap (issue_resolved s form client p) plain))
        (issue_and_redirect-GetsCode never s form client p g url next parses)

  post-ok :
      (s : Server) (r : Request) (w : World env.S)
      → r.method ≡ "POST"
      → handle_authorize s r w ≡ submit_parsed s r r.form w
  unfolding handle_authorize
  post-ok s r w post =
      ap (λ (h : Handler (World env.S)). h w)
        (second (r.method == "GET") (r.method == "POST") _ _ _ (ap (λ m. m == "GET") post)
          (ap (λ m. m == "POST") post))
    where
      second :
          {A : Type 0} (b c : Bool) (x y z : A)
          → b ≡ false
          → c ≡ true
          → (if b then x else if c then y else z) ≡ y
      second b c x y z e f = rw (e, f) refl

  submit-ok :
      (s : Server) (r : Request) (form : Values) (w : World env.S) (q : IsReady s r form w)
      → handle_authorize s r w
        ≡ approve s form q.client (parse_auth_params form) q.identity initial_approval q.after
  unfolding authorize_submit parse_auth_params
  submit-ok s r form w q =
      post-ok s r w q.method
      ∙ ap (λ o. submit_parsed s r o w) q.parsed
      ∙ validated-ok s (parse_auth_params form) _ w q.at q.client q.resource
          (validate_client-ok (parse_auth_params form) w q.at q.client q.client_id q.some_uri
            q.registered q.allowed)
          q.code_request q.served
      ∙ on-ok (verify_identity s r form) _ _ q.at q.after (some q.identity) q.verified
      ∙ ap (λ step. approve s form q.client (parse_auth_params form) q.identity step q.after)
          q.first_round

  -- An approval that nothing stands against gets a code, as long as randomness does not fail: the
  -- browser is redirected to the redirect URI with the code and the state, and the code is stored
  -- for the client, the identity and the challenge of the request.
  pub handle_authorize-GetsCode :
      (s : Server) (r : Request) (form : Values) (w : World env.S) (never : NeverFails)
      (q : IsReady s r form w)
      → GetsCode s
          (parse_auth_params form)
          q.url
          q.client
          q.identity
          (handle_authorize s r w).0
          (handle_authorize s r w).1
  unfolding parse_auth_params
  handle_authorize-GetsCode s r form w never q =
      let p = parse_auth_params form in
      subst (λ (x : Reply × World env.S). GetsCode s p q.url q.client q.identity x.0 x.1)
        (sym (submit-ok s r form w q))
        (approve-GetsCode never s form q.client p q.identity q.url q.after q.parses
          (not_diverted s form q.client p q.identity q.bound)
          (as_it_is form q.client p q.identity q.no_sets))

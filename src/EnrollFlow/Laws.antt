-- ===== src/EnrollFlow/Laws.antt =====
-- For whom an approval issues a code, and with which binding.
use lib_agent_oauth.Prelude.{
  String, ◌≡◌, refl, sym, ap, subst, ◌∙◌, ◌⊎◌, inl, inr, false, Bool-cases, Option, none, some,
  ◌==◌,
}
use lib_agent_oauth.Map.{Map}
use lib_agent_oauth.Exec.{Result, ok, err}
use lib_agent_oauth.Env.{Env}
use lib_agent_oauth.Model.{World, PrincipalGrant, is_empty}
use lib_agent_oauth.Http.{get, Reply, Handler}
use lib_agent_oauth.Http.Laws.{on-cases}
use lib_agent_oauth.Clients.{Client}
use lib_agent_oauth.Enrollment.{
  Enrollment, EnrollRequest, EnrollResult, EnrollChoice, CredentialMode, mode,
}
use lib_agent_oauth.EnrollView.{Collected, collect_mode_fields}
use lib_agent_oauth.Frame.{
  codes_and_now, codes_and_now-IsFrame, kept, event-keeps, merge_principal_binding-Keeps,
}
use lib_agent_oauth.Grant.Issue.{reply_of, state_of}
use lib_agent_oauth.Principal.{merge_principal_binding}
use lib_agent_oauth.Server.{Server, event}
use lib_agent_oauth.AuthParams.{AuthParams}
use lib_agent_oauth.Authorize.Gates.{Quiet}
use lib_agent_oauth.Authorize.Issued.{
  Issued, IssueOutcome, IssueOutcome-from, issue_and_redirect-outcome,
}
use lib_agent_oauth.Authorize.Redirects.{NoRedirect, GoesTo, NoRedirect-GoesTo}
use lib_agent_oauth.Pages.{
  EnrollFlow, EnrollView, render_page, render_chooser, render_enroll_choice,
}
use lib_agent_oauth.EnrollFlow.{
  show, finish_merged, finish_binding, finish_choice, finish_ok, finish, enrolled_event,
  submit_collected, submitted_mode, with_mode, submit_fields, submit_chosen, submit_choice,
}

module _ ⦃env : Env⦄ where
  -- The grant `g` comes from an enrollment of the principal: the callback was asked for this
  -- principal, it returned a binding, and `g` is what the merge of that binding has stored.
  pub record Enrolled (e : Enrollment) (principal : PrincipalGrant) (g : PrincipalGrant)
      : Type 0 where
    pub request : EnrollRequest
    pub asked : request.principal ≡ principal.name
    pub result : EnrollResult
    pub answer : e.enroll request ≡ ok result
    pub returned : is_empty result.binding ≡ false
    pub before : World env.S
    pub after : World env.S
    pub merged :
        merge_principal_binding principal.name result.binding before ≡ (ok (some g.binding), after)
    pub name : g.name ≡ principal.name

  -- A handler's outcome: no code is issued, or one for a grant with `P`.
  abbrev pub Outcome :
      (PrincipalGrant → Type 0)
      → Server
      → Client
      → AuthParams
      → World env.S
      → Reply
      → World env.S
      → Type 0
  Outcome P s client p w rep w' =
      GoesTo p rep.body × (Quiet w w' ⊎ ((g : PrincipalGrant) × P g × Issued s client p g w rep w'))

  pub page-Outcome :
      (P : PrincipalGrant → Type 0) (s : Server) (client : Client) (p : AuthParams)
      (w w' : World env.S) (page rep : Reply)
      → NoRedirect page.body
      → show page w ≡ (rep, w')
      → Outcome P s client p w rep w'
  page-Outcome P s client p w w' page rep nowhere h = (
    subst (λ (r : Reply). GoesTo p r.body) (reply_of h) (NoRedirect-GoesTo p page.body nowhere),
    inl (record { same = ap codes_and_now (sym (state_of h)) }),
  )

  pub issued-Outcome :
      (P : PrincipalGrant → Type 0) (s : Server) (client : Client) (p : AuthParams)
      (g : PrincipalGrant) (w w' : World env.S) (rep : Reply)
      → P g
      → IssueOutcome s client p g w rep w'
      → Outcome P s client p w rep w'
  issued-Outcome P s client p g w w' rep h (goes, inl quiet) = (goes, inl quiet)
  issued-Outcome P s client p g w w' rep h (goes, inr i) = (goes, inr (g, h, i))

  pub Outcome-from :
      (P : PrincipalGrant → Type 0) (s : Server) (client : Client) (p : AuthParams)
      (w v w' : World env.S) (rep : Reply)
      → codes_and_now v ≡ codes_and_now w
      → Outcome P s client p v rep w'
      → Outcome P s client p w rep w'
  Outcome-from P s client p w v w' rep e (goes, inl quiet) =
      (goes, inl (record { same = quiet.same ∙ e }))
  Outcome-from P s client p w v w' rep e (goes, inr (g, h, i)) =
      issued-Outcome P s client p g w w' rep h
        (IssueOutcome-from s client p g w v w' rep e (goes, inr i))

  module _ (s : Server) (f : EnrollFlow) where
    abbrev EnrollOutcome : World env.S → Reply → World env.S → Type 0
    EnrollOutcome = Outcome (Enrolled f.e f.principal) s f.client f.p

    page :
        (w w' : World env.S) (r rep : Reply)
        → NoRedirect r.body
        → show r w ≡ (rep, w')
        → EnrollOutcome w rep w'
    page = page-Outcome (Enrolled f.e f.principal) s f.client f.p

    finish_binding-outcome :
        (req : EnrollRequest) (res : EnrollResult) (w w' : World env.S) (rep : Reply)
        → req.principal ≡ f.principal.name
        → f.e.enroll req ≡ ok res
        → finish_binding s f res.binding w ≡ (rep, w')
        → EnrollOutcome w rep w'
    unfolding finish_binding finish_merged NoRedirect
    finish_binding-outcome req res w w' rep asked answer h =
        elim (Bool-cases (is_empty res.binding)) [
          | inl blank ↦ page w w' _ rep (λ u e. cc) (rw blank at h)
          | inr returned ↦
              elim (on-cases (finish_merged s f) _
                (merge_principal_binding f.principal.name res.binding) w w' rep
                (rw returned at h)) [
                  | inr (e, v, failed, rest) ↦
                      Outcome-from _ s f.client f.p w v w' rep
                        (kept
                          (merge_principal_binding-Keeps codes_and_now codes_and_now-IsFrame
                            f.principal.name res.binding)
                          failed)
                        (page v w' _ rep (λ u e. cc) rest)
                  | inl (o, v, merged, rest) ↦
                      Outcome-from _ s f.client f.p w v w' rep
                        (kept
                          (merge_principal_binding-Keeps codes_and_now codes_and_now-IsFrame
                            f.principal.name res.binding)
                          merged)
                        (after o v merged rest returned)
                ]
        ]
      where
        after :
            (o : Option (Map String)) (v : World env.S)
            → merge_principal_binding f.principal.name res.binding w ≡ (ok o, v)
            → finish_merged s f o v ≡ (rep, w')
            → is_empty res.binding ≡ false
            → EnrollOutcome v rep w'
        after none v merged rest returned = page v w' _ rep (λ u e. cc) rest
        after (some b) v merged rest returned =
            let g : PrincipalGrant = record { name = f.principal.name; binding = b } in
            let told = event s (enrolled_event s f) v in
            Outcome-from _ s f.client f.p v told w' rep
              (event-keeps codes_and_now codes_and_now-IsFrame s (enrolled_event s f) v)
              (issued-Outcome (Enrolled f.e f.principal) s f.client f.p g told w' rep
                (record {
                  request = req;
                  asked = asked;
                  result = res;
                  answer = answer;
                  returned = returned;
                  before = w;
                  after = v;
                  merged = merged;
                  name = refl;
                })
                (issue_and_redirect-outcome s f.form f.client f.p g told w' rep rest))

    finish-outcome :
        (mode_key : String) (req : EnrollRequest) (view : EnrollView) (w w' : World env.S)
        (rep : Reply)
        → req.principal ≡ f.principal.name
        → finish s f mode_key (f.e.enroll req) view w ≡ (rep, w')
        → EnrollOutcome w rep w'
    unfolding finish finish_choice render_page render_enroll_choice render_chooser NoRedirect
    finish-outcome mode_key req view w w' rep asked h = answered (f.e.enroll req) refl h
      where
        chosen :
            (res : EnrollResult) (o : Option EnrollChoice)
            → f.e.enroll req ≡ ok res
            → finish_ok s f mode_key res.binding o w ≡ (rep, w')
            → EnrollOutcome w rep w'
        chosen res none answer k = finish_binding-outcome req res w w' rep asked answer k
        chosen res (some choice) answer k = elim (Bool-cases (is_empty choice.options)) [
          | inl blank ↦ page w w' _ rep (λ u e. cc) (rw blank at k)
          | inr offered ↦ page w w' _ rep (λ u e. cc) (rw offered at k)
        ]

        answered :
            (r : Result EnrollResult)
            → f.e.enroll req ≡ r
            → finish s f mode_key r view w ≡ (rep, w')
            → EnrollOutcome w rep w'
        answered (err e) answer k = page w w' _ rep (λ u e. cc) k
        answered (ok res) answer k = chosen res res.choice answer k

    with_mode-outcome :
        (o : Option CredentialMode) (next : CredentialMode → Handler (World env.S))
        (w w' : World env.S) (rep : Reply)
        → ((m : CredentialMode) → next m w ≡ (rep, w') → EnrollOutcome w rep w')
        → with_mode f o next w ≡ (rep, w')
        → EnrollOutcome w rep w'
    unfolding render_page NoRedirect
    with_mode-outcome none next w w' rep k h = page w w' _ rep (λ u e. cc) h
    with_mode-outcome (some m) next w w' rep k h = k m h

    submit_collected-outcome :
        (m : CredentialMode) (c : Collected) (w w' : World env.S) (rep : Reply)
        → submit_collected s f m c w ≡ (rep, w')
        → EnrollOutcome w rep w'
    unfolding submit_collected render_page NoRedirect
    submit_collected-outcome m c w w' rep h = elim (Bool-cases (is_empty c.missing)) [
      | inr missing ↦ page w w' _ rep (λ u e. cc) (rw missing at h)
      | inl complete ↦ finish-outcome m.key _ _ w w' rep refl (rw complete at h)
    ]

    submit_chosen-outcome :
        (m : CredentialMode) (choice : String) (w w' : World env.S) (rep : Reply)
        → submit_chosen s f m choice w ≡ (rep, w')
        → EnrollOutcome w rep w'
    unfolding submit_chosen render_page NoRedirect
    submit_chosen-outcome m choice w w' rep h = elim (Bool-cases (choice == "")) [
      | inl blank ↦ page w w' _ rep (λ u e. cc) (rw blank at h)
      | inr chosen ↦ finish-outcome m.key _ _ w w' rep refl (rw chosen at h)
    ]

    -- A round of the enrollment issues no code, or one for the principal with the binding that the
    -- callback returned for it, merged into what is stored.
    pub submit_fields-Outcome :
        (w w' : World env.S) (rep : Reply)
        → submit_fields s f w ≡ (rep, w')
        → Outcome (Enrolled f.e f.principal) s f.client f.p w rep w'
    unfolding submit_fields submitted_mode
    submit_fields-Outcome w w' rep h =
        with_mode-outcome (mode f.e (get f.form "enroll_mode")) _ w w' rep
          (λ m. submit_collected-outcome m (collect_mode_fields m (get f.form)) w w' rep) h

    pub submit_choice-Outcome :
        (w w' : World env.S) (rep : Reply)
        → submit_choice s f w ≡ (rep, w')
        → Outcome (Enrolled f.e f.principal) s f.client f.p w rep w'
    unfolding submit_choice submitted_mode
    submit_choice-Outcome w w' rep h =
        with_mode-outcome (mode f.e (get f.form "enroll_mode")) _ w w' rep
          (λ m. submit_chosen-outcome m (get f.form "enroll_choice") w w' rep) h

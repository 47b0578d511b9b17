-- ===== src/Approve/Submit.antt =====
-- authorize.go: an approval as a whole.
use lib_agent_oauth.Prelude.{
  ◌≡◌, ◌≢◌, refl, ◌⊎◌, inl, inr, false, Bool-cases, Option, none, some, ◌==◌, eq_of_test,
  ne_of_test, arith, eq_iff, [],
}
use lib_agent_oauth.Env.{Env}
use lib_agent_oauth.Model.{World, PrincipalGrant, is_empty}
use lib_agent_oauth.Http.{Values, get, Reply, Handler}
use lib_agent_oauth.Clients.{Client}
use lib_agent_oauth.Enrollment.{Enrollment}
use lib_agent_oauth.Frame.{codes_and_now, codes_and_now-IsFrame, event-keeps}
use lib_agent_oauth.Server.{Server, enrollment_for, projected_binding}
use lib_agent_oauth.AuthParams.{
  AuthParams, AuthorizeStep, initial_approval, enroll_fields, enroll_choice, binding_choice,
}
use lib_agent_oauth.Authorize.Redirects.{NoRedirect}
use lib_agent_oauth.Authorize.Issued.{issue_and_redirect-outcome}
use lib_agent_oauth.Approve.{
  enroll_flow, must_enroll, divert_step, divert_if, divert_or, divert_to_enrollment, SetBindings,
  handled, granted, resolve_set_bindings, issue_resolved, announce_pairing, paired_event, approve,
}
use lib_agent_oauth.EnrollFlow.{show}
use lib_agent_oauth.Pages.{render_page}
use lib_agent_oauth.EnrollFlow.Laws.{
  Enrolled, Outcome, page-Outcome, issued-Outcome, Outcome-from, submit_fields-Outcome,
  submit_choice-Outcome,
}
use lib_agent_oauth.Approve.Authority.{
  Entitled, resolve_set_bindings-Narrowed, resolve_set_bindings-NoRedirect,
}

module _ ⦃env : Env⦄ where
  module _ (s : Server) (form : Values) (client : Client) (p : AuthParams)
      (principal : PrincipalGrant) where
    abbrev ApproveOutcome : World env.S → Reply → World env.S → Type 0
    ApproveOutcome = Outcome (Entitled s form p principal) s client p

    -- Why a request is not diverted.
    abbrev IsBound : Type 0
    IsBound =
        (enrollment_for s p.resource ≡ none)
        ⊎ (principal.name ≡ "")
        ⊎ ((is_empty (projected_binding s principal.binding p.resource) ≡ false)
            × (get form "update_credentials" ≡ ""))

    -- A page of the enrollment, or its outcome for the identity.
    Enrolled-Outcome :
        (e : Enrollment) (w w' : World env.S) (rep : Reply)
        → enrollment_for s p.resource ≡ some e
        → principal.name ≢ ""
        → Outcome (Enrolled e principal) s client p w rep w'
        → ApproveOutcome w rep w'
    Enrolled-Outcome e w w' rep configured named (goes, inl quiet) = (goes, inl quiet)
    Enrolled-Outcome e w w' rep configured named (goes, inr (g, h, i)) =
        (goes, inr (g, inr (e, configured, named, h), i))

    enroll_page :
        (e : Enrollment) (w w' : World env.S) (rep : Reply)
        → show
            (render_page
              (enroll_flow form client p principal e)
              (record { error = ""; mode = ""; values = [] }))
            w
          ≡ (rep, w')
        → ApproveOutcome w rep w'
    unfolding render_page NoRedirect
    enroll_page e w w' rep h = page-Outcome _ s client p w w' _ rep (λ u b. cc) h

    not_asked :
        (e : Enrollment) → must_enroll s (enroll_flow form client p principal e) ≡ false → IsBound
    not_asked e h =
        inr (inr (ground arith, ground (arith, eq_iff (get form "update_credentials") "")))

    -- Either the enrollment takes the request over, or there is a reason why it need not.
    diverted :
        (e : Enrollment) (step : AuthorizeStep) (next : Handler (World env.S)) (w w' : World env.S)
        (rep : Reply)
        → enrollment_for s p.resource ≡ some e
        → principal.name ≢ ""
        → (IsBound → next w ≡ (rep, w') → ApproveOutcome w rep w')
        → divert_or (divert_step s (enroll_flow form client p principal e) step) next w ≡ (rep, w')
        → ApproveOutcome w rep w'
    unfolding divert_step
    diverted e enroll_fields next w w' rep configured named k h =
        Enrolled-Outcome e w w' rep configured named
          (submit_fields-Outcome s (enroll_flow form client p principal e) w w' rep h)
    diverted e enroll_choice next w w' rep configured named k h =
        Enrolled-Outcome e w w' rep configured named
          (submit_choice-Outcome s (enroll_flow form client p principal e) w w' rep h)
    diverted e initial_approval next w w' rep configured named k h =
        elim (Bool-cases (must_enroll s (enroll_flow form client p principal e))) [
          | inl must ↦ enroll_page e w w' rep (rw must at h)
          | inr need_not ↦ k (not_asked e need_not) (rw need_not at h)
        ]
    diverted e binding_choice next w w' rep configured named k h =
        elim (Bool-cases (must_enroll s (enroll_flow form client p principal e))) [
          | inl must ↦ enroll_page e w w' rep (rw must at h)
          | inr need_not ↦ k (not_asked e need_not) (rw need_not at h)
        ]

    divert-outcome :
        (step : AuthorizeStep) (next : Handler (World env.S)) (w w' : World env.S) (rep : Reply)
        → (IsBound → next w ≡ (rep, w') → ApproveOutcome w rep w')
        → divert_or (divert_to_enrollment s form client p principal step) next w ≡ (rep, w')
        → ApproveOutcome w rep w'
    unfolding divert_to_enrollment
    divert-outcome step next w w' rep k h = configured (enrollment_for s p.resource) refl h
      where
        configured :
            (o : Option Enrollment)
            → enrollment_for s p.resource ≡ o
            → divert_or (divert_if s form client p principal step o) next w ≡ (rep, w')
            → ApproveOutcome w rep w'
        configured none e h = k (inl e) h
        configured (some x) e h = elim (Bool-cases (principal.name == "")) [
          | inl anonymous ↦
              k (inr (inl (eq_of_test principal.name "" anonymous))) (rw anonymous at h)
          | inr named ↦
              diverted x step next w w' rep e (ne_of_test principal.name "" named) k (rw named at h)
        ]

    issue_resolved-outcome :
        (step : AuthorizeStep) (w w' : World env.S) (rep : Reply)
        → IsBound
        → issue_resolved s form client p (resolve_set_bindings form client p principal step) w
          ≡ (rep, w')
        → ApproveOutcome w rep w'
    issue_resolved-outcome step w w' rep bound h =
        resolved (resolve_set_bindings form client p principal step) refl h
      where
        resolved :
            (b : SetBindings)
            → resolve_set_bindings form client p principal step ≡ b
            → issue_resolved s form client p b w ≡ (rep, w')
            → ApproveOutcome w rep w'
        resolved (handled r) e h =
            page-Outcome _ s client p w w' r rep
              (resolve_set_bindings-NoRedirect form client p principal r step e) h
        resolved (granted g) e h =
            issued-Outcome (Entitled s form p principal) s client p g w w' rep
              (inl (record {
                bound = bound;
                narrowed = resolve_set_bindings-Narrowed form client p principal g step e;
              }))
              (issue_and_redirect-outcome s form client p g w w' rep h)

    announce_pairing-keeps :
        (step : AuthorizeStep) (w : World env.S)
        → codes_and_now (announce_pairing s form client p principal step w) ≡ codes_and_now w
    unfolding announce_pairing
    announce_pairing-keeps initial_approval w =
        event-keeps codes_and_now codes_and_now-IsFrame s (paired_event s form client p principal) w
    announce_pairing-keeps enroll_fields w = refl
    announce_pairing-keeps enroll_choice w = refl
    announce_pairing-keeps binding_choice w = refl

    -- An approval by the identity `principal`, in any round of the flow, issues no code, or one for a
    -- grant that the identity is entitled to; the browser is sent at most to the redirect URI.
    pub approve-Outcome :
        (step : AuthorizeStep) (w w' : World env.S) (rep : Reply)
        → approve s form client p principal step w ≡ (rep, w')
        → Outcome (Entitled s form p principal) s client p w rep w'
    unfolding approve
    approve-Outcome step w w' rep h =
        let v = announce_pairing s form client p principal step w in
        Outcome-from _ s client p w v w' rep (announce_pairing-keeps step w)
          (divert-outcome step _ v w' rep (issue_resolved-outcome step v w' rep) h)

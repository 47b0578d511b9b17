-- ===== src/Approve/Authority.antt =====
-- authorize.go: the grants that an identity is entitled to.
use Prim.Native.String.{◌++◌}
use lib_agent_oauth.Prelude.{
  String, ◌≡◌, ◌≢◌, refl, sym, ap, ◌∙◌, ◌⊎◌, inl, inr, true, false, Bool-cases, ◌||◌, Option, none,
  some, ◌==◌, eq_of_test, List, [], ◌∷◌,
}
use lib_agent_oauth.Map.{Map}
use lib_agent_oauth.Env.{Env}
use lib_agent_oauth.Model.{PrincipalGrant, is_empty}
use lib_agent_oauth.Http.{Url, redirect, Values, get, Reply}
use lib_agent_oauth.Clients.{Client}
use lib_agent_oauth.Enrollment.{Enrollment}
use lib_agent_oauth.Server.{Server, enrollment_for, projected_binding}
use lib_agent_oauth.AuthParams.{AuthParams, AuthorizeStep}
use lib_agent_oauth.Choose.{set_valued_keys, resolve_binding_choices}
use lib_agent_oauth.Choose.Laws.{resolve_binding_choices_lem}
use lib_agent_oauth.Authorize.Redirects.{NoRedirect}
use lib_agent_oauth.Pages.{render_chooser, render_binding_chooser}
use lib_agent_oauth.Approve.{
  handled, granted, resolved_grant, is_binding_choice, resolve_set_bindings,
}
use lib_agent_oauth.EnrollFlow.Laws.{Enrolled}

-- What `resolve_set_bindings` grants: the principal as it is, or with one member chosen of each set.
pub record Narrowed (form : Values) (principal g : PrincipalGrant) : Type 0 where
  pub name : g.name ≡ principal.name
  pub no_sets : (principal.name ≡ "") ⊎ (set_valued_keys g.binding ≡ [])
  pub binding :
      (g.binding ≡ principal.binding)
      ⊎ (resolve_binding_choices principal.binding (λ key. get form ("choice_" ++ key))
          ≡ some g.binding)

empty-nil : (l : List String) → is_empty l ≡ true → l ≡ []
empty-nil [] h = refl
empty-nil (x ∷ l) h = cc

granted_eq : {a b : PrincipalGrant} → granted a ≡ granted b → a ≡ b
granted_eq h = cc

resolved_grant-granted :
    (form : Values) (client : Client) (p : AuthParams) (code : String)
    (principal g : PrincipalGrant) (o : Option (Map String))
    → resolve_binding_choices principal.binding (λ key. get form ("choice_" ++ key)) ≡ o
    → resolved_grant client p code principal o ≡ granted g
    → Narrowed form principal g
resolved_grant-granted form client p code principal g none e h = cc
resolved_grant-granted form client p code principal g (some b) e h =
    let same = sym (granted_eq h) in
    record {
      name = ap (λ (x : PrincipalGrant). x.name) same;
      no_sets = inr (
          ap (λ (x : PrincipalGrant). set_valued_keys x.binding) same
          ∙ (resolve_binding_choices_lem principal.binding _ b e).0);
      binding = inr (e ∙ ap (λ (x : PrincipalGrant). some x.binding) (sym same));
    }

-- The set-valued bindings of a principal are narrowed before a grant is issued.
pub resolve_set_bindings-Narrowed :
    (form : Values) (client : Client) (p : AuthParams) (principal g : PrincipalGrant)
    (step : AuthorizeStep)
    → resolve_set_bindings form client p principal step ≡ granted g
    → Narrowed form principal g
unfolding resolve_set_bindings
resolve_set_bindings-Narrowed form client p principal g step h =
    elim (Bool-cases (principal.name == "" || is_empty (set_valued_keys principal.binding))) [
      | inl plain ↦ as_it_is plain (granted_eq (rw plain at h))
      | inr sets ↦ elim (Bool-cases (is_binding_choice step)) [
        | inr other ↦ absurd (not_handled (rw (sets, other) at h))
        | inl choice ↦
            resolved_grant-granted form client p (get form "pairing_code") principal g _ refl
              (rw (sets, choice) at h)
      ]
    ]
  where
    not_handled : {r : Reply} → handled r ≢ granted g
    not_handled e = cc

    as_it_is :
        (principal.name == "" || is_empty (set_valued_keys principal.binding)) ≡ true
        → principal ≡ g
        → Narrowed form principal g
    as_it_is plain same = record {
      name = ap (λ (x : PrincipalGrant). x.name) (sym same);
      no_sets = elim (Bool-cases (principal.name == "")) [
        | inl anonymous ↦ inl (eq_of_test principal.name "" anonymous)
        | inr named ↦ inr (
            ap (λ (x : PrincipalGrant). set_valued_keys x.binding) (sym same)
            ∙ empty-nil _ (rw named at plain))
      ];
      binding = inl (ap (λ (x : PrincipalGrant). x.binding) (sym same));
    }

chooser-NoRedirect :
    (client : Client) (p : AuthParams) (code : String) (principal : PrincipalGrant) (msg : String)
    (u : Url)
    → (render_binding_chooser client p code principal msg).body ≢ redirect u
unfolding render_binding_chooser render_chooser
chooser-NoRedirect client p code principal msg u e = cc

-- A page that is shown instead sends the browser nowhere.
pub resolve_set_bindings-NoRedirect :
    (form : Values) (client : Client) (p : AuthParams) (principal : PrincipalGrant) (r : Reply)
    (step : AuthorizeStep)
    → resolve_set_bindings form client p principal step ≡ handled r
    → NoRedirect r.body
unfolding resolve_set_bindings NoRedirect
resolve_set_bindings-NoRedirect form client p principal r step h u =
    elim (Bool-cases (principal.name == "" || is_empty (set_valued_keys principal.binding))) [
      | inl plain ↦ absurd (not_granted (rw plain at h))
      | inr sets ↦ elim (Bool-cases (is_binding_choice step)) [
        | inr other ↦ chooser "" (handled_eq (rw (sets, other) at h))
        | inl choice ↦
            resolved
              (resolve_binding_choices principal.binding (λ key. get form ("choice_" ++ key)))
              (rw (sets, choice) at h)
      ]
    ]
  where
    not_granted : {g : PrincipalGrant} → granted g ≢ handled r
    not_granted e = cc

    handled_eq : {a b : Reply} → handled a ≡ handled b → a ≡ b
    handled_eq e = cc

    chooser :
        (msg : String)
        → render_binding_chooser client p (get form "pairing_code") principal msg ≡ r
        → r.body ≢ redirect u
    chooser msg e b =
        chooser-NoRedirect client p (get form "pairing_code") principal msg u
          (ap (λ (x : Reply). x.body) e ∙ b)

    resolved :
        (o : Option (Map String))
        → resolved_grant client p (get form "pairing_code") principal o ≡ handled r
        → r.body ≢ redirect u
    resolved none e = chooser _ (handled_eq e)
    resolved (some b) e = absurd (not_granted e)

module _ ⦃env : Env⦄ where
  -- The grant comes without an enrollment: none is configured for the resource, or the identity is
  -- anonymous, or the principal is bound for the resource and did not ask to enroll again.
  pub record Bound (s : Server) (form : Values) (p : AuthParams) (principal g : PrincipalGrant)
      : Type 0 where
    pub bound :
        (enrollment_for s p.resource ≡ none)
        ⊎ (principal.name ≡ "")
        ⊎ ((is_empty (projected_binding s principal.binding p.resource) ≡ false)
            × (get form "update_credentials" ≡ ""))
    pub narrowed : Narrowed form principal g

  -- A grant that the identity `principal` is entitled to: it is bound, or it has just enrolled.
  abbrev pub Entitled : Server → Values → AuthParams → PrincipalGrant → PrincipalGrant → Type 0
  Entitled s form p principal g =
      Bound s form p principal g
      ⊎ ((e : Enrollment) × (enrollment_for s p.resource ≡ some e)
          × (principal.name ≢ "")
          × Enrolled e principal g)

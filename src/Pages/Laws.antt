-- ===== src/Pages/Laws.antt =====
-- Laws of the pages of enroll_flow.go and choose_page.go.
use lib_agent_oauth.Prelude.{
  ◌∙◌, sym, ap, String, ◌≡◌, refl, false, Bool-cases, inl, inr, ◌==◌, [], ◌∷◌, eq_of_test,
}
use lib_agent_oauth.Map
use lib_agent_oauth.Map.{Map, lookup-insert}
use lib_agent_oauth.Http.{get, or_blank, Reply, Values, Body, enroll_form, choose_form}
use lib_agent_oauth.Model.{PrincipalGrant}
use lib_agent_oauth.Clients.{Client}
use lib_agent_oauth.Enrollment.{EnrollChoice}
use lib_agent_oauth.AuthParams.{
  AuthParams, parse_auth_params, hidden_fields_with_code, classify_step, AuthorizeStep,
  enroll_fields, enroll_choice, binding_choice,
}
use lib_agent_oauth.Pages.{
  EnrollFlow, EnrollView, render_page, insert_some, render_chooser, render_binding_chooser,
  render_enroll_choice,
}

-- The fields that a page hides.
abbrev pub hidden_in : Body → Values
hidden_in (enroll_form f) = f.hidden
hidden_in (choose_form f) = f.hidden
hidden_in _ = []

-- The hidden fields lead back to the request `p`, with the entered code, in the round `step`.
pub record Carries (p : AuthParams) (code : String) (step : AuthorizeStep) (rep : Reply)
    : Type 0 where
  pub request : parse_auth_params (hidden_in rep.body) ≡ p
  pub pairing_code : get (hidden_in rep.body) "pairing_code" ≡ code
  pub round : classify_step (hidden_in rep.body) ≡ step

-- The enrollment form carries the request and the code into the enrollment round.
pub render_page-Carries :
    (f : EnrollFlow) (view : EnrollView)
    → Carries f.p f.pairing_code enroll_fields (render_page f view)
unfolding render_page parse_auth_params hidden_fields_with_code classify_step get Map.lookup
    Map.insert Map.delete
render_page-Carries f view = record { request = refl; pairing_code = refl; round = refl }

-- The chooser of set members carries the request and the code into the round of the choice.
pub render_binding_chooser-Carries :
    (client : Client) (p : AuthParams) (code : String) (principal : PrincipalGrant) (msg : String)
    → Carries p code binding_choice (render_binding_chooser client p code principal msg)
unfolding render_binding_chooser render_chooser parse_auth_params hidden_fields_with_code
    classify_step get Map.lookup Map.insert Map.delete Map.copy
render_binding_chooser-Carries client p code principal msg = record {
  request = refl;
  pairing_code = refl;
  round = refl;
}

-- A field that is written unless it is blank reads back as it was, and no other field changes.
get-insert_some : (k v : String) (m : Map String) → get m k ≡ "" → get (insert_some k v m) k ≡ v
unfolding get
get-insert_some k v m h = elim (Bool-cases (v == "")) [
  | inl e ↦ rw e (h ∙ sym (eq_of_test v "" e))
  | inr e ↦ rw e (ap or_blank (Map.lookup-insert_same k v m))
]

get-insert_some_ne :
    (k j v : String) (m : Map String) → (k == j) ≡ false → get (insert_some k v m) j ≡ get m j
unfolding get
get-insert_some_ne k j v m ne = elim (Bool-cases (v == "")) [
  | inl e ↦ rw e refl
  | inr e ↦ rw e (ap or_blank {y = Map.lookup j m} (Map.lookup-insert k j v m ∙ rw ne refl))
]

-- What the fields of an enrollment's chooser are before the mode and the state.
abbrev choice_fields : AuthParams → String → Values
choice_fields p code =
    Map.copy (hidden_fields_with_code p code) (("enroll", "1") ∷ ("enroll_choice_round", "1") ∷ [])

choice_fields_lem :
    (p : AuthParams) (code : String)
    → (parse_auth_params (choice_fields p code) ≡ p)
      × (get (choice_fields p code) "pairing_code" ≡ code)
      × (get (choice_fields p code) "enroll" ≡ "1")
      × (get (choice_fields p code) "enroll_choice_round" ≡ "1")
      × (get (choice_fields p code) "enroll_mode" ≡ "")
      × (get (choice_fields p code) "enroll_state" ≡ "")
unfolding parse_auth_params hidden_fields_with_code get Map.lookup Map.insert Map.delete Map.copy
choice_fields_lem p code = (refl, refl, refl, refl, refl, refl)

-- Two forms with the same fields stand for the same request.
parse-cong :
    (v v' : Values)
    → ((j : String)
        → ("enroll_state" == j) ≡ false
        → ("enroll_mode" == j) ≡ false
        → get v j ≡ get v' j)
    → parse_auth_params v ≡ parse_auth_params v'
unfolding parse_auth_params
parse-cong v v' h =
    rw
      (
        h "client_id" refl refl,
        h "redirect_uri" refl refl,
        h "state" refl refl,
        h "scope" refl refl,
        h "resource" refl refl,
        h "code_challenge" refl refl,
        h "code_challenge_method" refl refl,
        h "response_type" refl refl,
      )
      refl

choice_round :
    (v : Values)
    → get v "enroll" ≡ "1"
    → get v "enroll_choice_round" ≡ "1"
    → classify_step v ≡ enroll_choice
unfolding classify_step
choice_round v e c = rw (e, c) refl

-- The chooser of an enrollment carries the request, the code, the mode and the callback's state into
-- the round of the enrollment's choice.
pub render_enroll_choice-Carries :
    (client : Client) (p : AuthParams) (code : String) (principal : PrincipalGrant) (m : String)
    (choice : EnrollChoice) (msg : String)
    → let rep = render_enroll_choice client p code principal m choice msg in
      Carries p code enroll_choice rep
      × (get (hidden_in rep.body) "enroll_mode" ≡ m)
      × (get (hidden_in rep.body) "enroll_state" ≡ choice.state)
unfolding render_enroll_choice render_chooser
render_enroll_choice-Carries client p code principal m choice msg =
    let base = choice_fields p code in
    let inner = insert_some "enroll_state" choice.state base in
    let (request, entered, first, second, no_mode, no_state) = choice_fields_lem p code in
    let same : (j : String)
        → ("enroll_state" == j) ≡ false
        → ("enroll_mode" == j) ≡ false
        → get (insert_some "enroll_mode" m inner) j ≡ get base j =
      λ j s t.
        get-insert_some_ne "enroll_mode" j m inner t
        ∙ get-insert_some_ne "enroll_state" j choice.state base s in
    (
      record {
        request = parse-cong (insert_some "enroll_mode" m inner) base same ∙ request;
        pairing_code = same "pairing_code" refl refl ∙ entered;
        round =
            choice_round (insert_some "enroll_mode" m inner) (same "enroll" refl refl ∙ first)
              (same "enroll_choice_round" refl refl ∙ second);
      },
      get-insert_some "enroll_mode" m inner
          (get-insert_some_ne "enroll_state" "enroll_mode" choice.state base refl ∙ no_mode),
      get-insert_some_ne "enroll_mode" "enroll_state" m inner refl
          ∙ get-insert_some "enroll_state" choice.state base no_state,
    )

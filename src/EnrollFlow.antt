-- ===== src/EnrollFlow.antt =====
-- enroll_flow.go: the rounds of the enrollment, and what is done with the callback's answer.
pub mod Laws
use Prim.Native.String.{◌++◌}
use lib_agent_oauth.Prelude.{
  String, Bool, true, false, not, ◌||◌, Option, none, some, List, [], ◌∷◌, ◌==◌, if◌then◌else◌, eqb,
  length,
}
use lib_agent_oauth.Prelude
use lib_agent_oauth.Map
use lib_agent_oauth.Map.{Map}
use lib_agent_oauth.Exec.{Result, ok, err}
use lib_agent_oauth.Env.{Env}
use lib_agent_oauth.Model.{World, M, PrincipalGrant, Event, paired, enrolled, is_empty}
use lib_agent_oauth.Http.{
  Values, get, Request, Reply, reply, enroll_form, choose_form, ChooseSet, ChooseView, Handler, on,
  oauth_error_reply,
}
use lib_agent_oauth.Clients.{Client}
use lib_agent_oauth.Enrollment.{
  Enrollment, EnrollRequest, EnrollChoice, EnrollResult, CredentialMode, mode,
}
use lib_agent_oauth.Principal.{merge_principal_binding}
use lib_agent_oauth.Server.{Server, enrollment_for, projected_binding, event}
use lib_agent_oauth.AuthParams.{
  AuthParams, parse_auth_params, hidden_fields_with_code, AuthorizeStep, initial_approval,
  enroll_fields, enroll_choice, binding_choice, classify_step,
}
use lib_agent_oauth.Choose.{binding_set, set_valued_keys, resolve_binding_choices}
use lib_agent_oauth.EnrollView.{value_or_blank, enroll_mode_views, collect_mode_fields, Collected}
use lib_agent_oauth.Authorize.{
  authorize_error_page, render_form, identity_via, event_resource, validated_request,
  authorize_form, verify_identity, issue_and_redirect,
}
use lib_agent_oauth.Pages.{
  EnrollFlow, EnrollView, choose_set, first_key, insert_some, render_binding_chooser,
  render_chooser, render_enroll_choice, render_page,
}

-- `strings.Join(missing, ", ")`
unfoldable pub join_labels : List String → String
join_labels [] = ""
join_labels (l ∷ []) = l
join_labels (l ∷ m ∷ rest) = l ++ (", " ++ join_labels (m ∷ rest))

module _ ⦃env : Env⦄ where
  -- A page that changes nothing.
  abbrev pub show : Reply → Handler (World env.S)
  show r w = (r, w)

  abbrev pub enrolled_event : Server → EnrollFlow → Event
  enrolled_event s f = record {
    type = enrolled;
    principal = f.principal.name;
    client = f.client.name;
    resource = event_resource s f.p;
    via = "";
  }

  -- After the merge: the fresh grant goes into the code.
  unfoldable pub finish_merged : Server → EnrollFlow → Option (Map String) → Handler (World env.S)
  finish_merged s f none w =
      (authorize_error_page "internal error storing the credential binding", w)
  finish_merged s f (some merged) w =
      issue_and_redirect s f.form f.client f.p
        (record { name = f.principal.name; binding = merged }) (event s (enrolled_event s f) w)

  -- What a binding that the callback returned leads to.
  unfoldable pub finish_binding : Server → EnrollFlow → Map String → Handler (World env.S)
  finish_binding s f binding =
      if is_empty binding
      then show (authorize_error_page "internal error: enrollment returned no binding")
      else on (merge_principal_binding f.principal.name binding) (finish_merged s f)
          (λ _. show (authorize_error_page "internal error storing the credential binding"))

  unfoldable pub finish_choice : EnrollFlow → String → EnrollChoice → Handler (World env.S)
  finish_choice f mode_key choice =
      if is_empty choice.options
      then show (authorize_error_page "internal error: enrollment offered an empty choice")
      else show (render_enroll_choice f.client f.p f.pairing_code f.principal mode_key choice "")

  abbrev pub finish_ok :
      Server → EnrollFlow → String → Map String → Option EnrollChoice → Handler (World env.S)
  finish_ok s f mode_key binding (some choice) = finish_choice f mode_key choice
  finish_ok s f mode_key binding none = finish_binding s f binding

  -- finish
  unfoldable pub finish :
      Server → EnrollFlow → String → Result EnrollResult → EnrollView → Handler (World env.S)
  finish s f mode_key (err e) view = show (render_page f (record view { error = e }))
  finish s f mode_key (ok res) view = finish_ok s f mode_key res.binding res.choice

  abbrev pub fields_view : CredentialMode → Collected → EnrollView
  fields_view m c = record { error = ""; mode = m.key; values = c.non_secret }

  -- submitFields, in a mode and with the values that were read.
  unfoldable pub submit_collected :
      Server → EnrollFlow → CredentialMode → Collected → Handler (World env.S)
  submit_collected s f m c =
      if not (is_empty c.missing)
      then show (
          render_page f
            (record (fields_view m c) { error = "Required: " ++ join_labels c.missing }))
      else finish s f m.key
          (f.e.enroll (record {
            principal = f.principal.name;
            mode = m.key;
            values = c.values;
            choice = "";
            state = "";
          }))
          (fields_view m c)

  -- submittedMode, and what its caller does with the mode.
  abbrev pub with_mode :
      EnrollFlow
      → Option CredentialMode
      → (CredentialMode → Handler (World env.S))
      → Handler (World env.S)
  with_mode f none next = show (
      render_page f
        (record { error = "Pick how you want to authenticate."; mode = ""; values = [] }))
  with_mode f (some m) next = next m

  unfoldable pub submitted_mode :
      EnrollFlow → (CredentialMode → Handler (World env.S)) → Handler (World env.S)
  submitted_mode f next = with_mode f (mode f.e (get f.form "enroll_mode")) next

  -- submitFields
  unfoldable pub submit_fields : Server → EnrollFlow → Handler (World env.S)
  submit_fields s f =
      submitted_mode f λ m. submit_collected s f m (collect_mode_fields m (get f.form))

  -- submitChoice, in a mode and with the submitted choice.
  unfoldable pub submit_chosen :
      Server → EnrollFlow → CredentialMode → String → Handler (World env.S)
  submit_chosen s f m choice =
      if choice == ""
      then show (
          render_page f
            (record { error = "No option was selected — start again."; mode = m.key; values = [] }))
      else finish s f m.key
          (f.e.enroll (record {
            principal = f.principal.name;
            mode = m.key;
            values = [];
            choice = choice;
            state = get f.form "enroll_state";
          }))
          (record { error = ""; mode = m.key; values = [] })

  -- submitChoice
  unfoldable pub submit_choice : Server → EnrollFlow → Handler (World env.S)
  submit_choice s f = submitted_mode f λ m. submit_chosen s f m (get f.form "enroll_choice")

-- ===== src/Pages.antt =====
-- enroll_flow.go and choose_page.go: the pages of the enrollment and of the chooser, as the data that
-- their templates are given.
pub mod Laws
use Prim.Native.String.{◌++◌}
use lib_agent_oauth.Prelude.{
  String, Bool, true, false, not, ◌||◌, Option, none, some, List, [], ◌∷◌, ◌==◌, if◌then◌else◌, eqb,
  length,
}
use lib_agent_oauth.Prelude
use lib_agent_oauth.Map
use lib_agent_oauth.Map.{Map}
use lib_agent_oauth.Exec.{Result, ok, err}
use lib_agent_oauth.Env.{Env}
use lib_agent_oauth.Model.{World, M, PrincipalGrant, Event, paired, enrolled, is_empty}
use lib_agent_oauth.Http.{
  Values, get, Request, Reply, reply, enroll_form, choose_form, ChooseSet, ChooseView, Handler, on,
  oauth_error_reply,
}
use lib_agent_oauth.Clients.{Client}
use lib_agent_oauth.Enrollment.{
  Enrollment, EnrollRequest, EnrollChoice, EnrollResult, CredentialMode, mode,
}
use lib_agent_oauth.Principal.{merge_principal_binding}
use lib_agent_oauth.Server.{Server, enrollment_for, projected_binding, event}
use lib_agent_oauth.AuthParams.{
  AuthParams, parse_auth_params, hidden_fields_with_code, AuthorizeStep, initial_approval,
  enroll_fields, enroll_choice, binding_choice, classify_step,
}
use lib_agent_oauth.Choose.{binding_set, set_valued_keys, resolve_binding_choices}
use lib_agent_oauth.EnrollView.{value_or_blank, enroll_mode_views, collect_mode_fields, Collected}
use lib_agent_oauth.Authorize.{
  authorize_error_page, render_form, identity_via, event_resource, validated_request,
  authorize_form, verify_identity, issue_and_redirect,
}

-- enrollView
pub record EnrollView : Type 0 where
  pub error : String
  pub mode : String
  pub values : Map String

-- enrollFlow, without the server and the writer
pub record EnrollFlow : Type 0 where
  pub form : Values
  pub client : Client
  pub p : AuthParams
  pub principal : PrincipalGrant
  pub pairing_code : String
  pub e : Enrollment

-- `d.Modes[0].Key`; a validated descriptor has a mode.
abbrev pub first_key : List CredentialMode → String
first_key [] = ""
first_key (m ∷ _) = m.key

-- renderPage
unfoldable pub render_page : EnrollFlow → EnrollView → Reply
render_page f view =
    let d = f.e.descriptor in
    let selected = if view.mode == "" then first_key d.modes else view.mode in
    let modes = enroll_mode_views d selected view.values in
    reply 200 (
      enroll_form (record {
        title = d.title;
        intro = d.intro;
        principal = f.principal.name;
        client_name = f.client.name;
        error = view.error;
        single_mode = eqb (length modes) 1;
        modes = modes;
        hidden = Map.insert "enroll" "1" (hidden_fields_with_code f.p f.pairing_code);
      }))

-- `hidden[k] = v`, if `v` is not empty.
abbrev pub insert_some : String → String → Map String → Map String
insert_some k v m = if v == "" then m else Map.insert k v m

-- renderChooser
unfoldable pub render_chooser :
    Client → AuthParams → String → PrincipalGrant → ChooseView → Map String → Reply
render_chooser client p pairing_code principal view markers = reply 200 (
    choose_form (record {
      client_name = client.name;
      principal = principal.name;
      view = view;
      hidden = insert_some "enroll_mode" view.mode (
          insert_some "enroll_state" view.state
            (Map.copy (hidden_fields_with_code p pairing_code) markers));
    }))

abbrev pub choose_set : Map String → String → ChooseSet
choose_set binding k = record {
  key = k;
  options = (binding_set (value_or_blank (Map.lookup k binding))).0;
}

-- renderBindingChooser
unfoldable pub render_binding_chooser :
    Client → AuthParams → String → PrincipalGrant → String → Reply
render_binding_chooser client p pairing_code principal msg =
    render_chooser client p pairing_code principal
      (record {
        error = msg;
        sets = Prelude.map (choose_set principal.binding) (set_valued_keys principal.binding);
        prompt = "";
        options = [];
        state = "";
        mode = "";
      })
      (("choose", "1") ∷ [])

-- renderEnrollChoice
unfoldable pub render_enroll_choice :
    Client → AuthParams → String → PrincipalGrant → String → EnrollChoice → String → Reply
render_enroll_choice client p pairing_code principal mode_key choice msg =
    render_chooser client p pairing_code principal
      (record {
        error = msg;
        sets = [];
        prompt = choice.prompt;
        options = choice.options;
        state = choice.state;
        mode = mode_key;
      })
      (("enroll", "1") ∷ ("enroll_choice_round", "1") ∷ [])

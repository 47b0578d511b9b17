-- ===== src/Approve.antt =====
-- authorize.go: the approval of an authorization request.
pub mod Authority
pub mod Submit
pub mod Outcome
pub mod Flow
pub mod Ready
pub mod Issues
use Prim.Native.String.{◌++◌}
use lib_agent_oauth.Prelude.{
  String, Bool, true, false, not, ◌||◌, Option, none, some, List, [], ◌∷◌, ◌==◌, if◌then◌else◌, eqb,
  length,
}
use lib_agent_oauth.Prelude
use lib_agent_oauth.Map
use lib_agent_oauth.Map.{Map}
use lib_agent_oauth.Exec.{Result, ok, err}
use lib_agent_oauth.Env.{Env}
use lib_agent_oauth.Model.{World, M, PrincipalGrant, Event, paired, enrolled, is_empty}
use lib_agent_oauth.Http.{
  Values, get, Request, Reply, reply, enroll_form, choose_form, ChooseSet, ChooseView, Handler, on,
  oauth_error_reply,
}
use lib_agent_oauth.Clients.{Client}
use lib_agent_oauth.Enrollment.{
  Enrollment, EnrollRequest, EnrollChoice, EnrollResult, CredentialMode, mode,
}
use lib_agent_oauth.Principal.{merge_principal_binding}
use lib_agent_oauth.Server.{Server, enrollment_for, projected_binding, event}
use lib_agent_oauth.AuthParams.{
  AuthParams, parse_auth_params, hidden_fields_with_code, AuthorizeStep, initial_approval,
  enroll_fields, enroll_choice, binding_choice, classify_step,
}
use lib_agent_oauth.Choose.{binding_set, set_valued_keys, resolve_binding_choices}
use lib_agent_oauth.EnrollView.{value_or_blank, enroll_mode_views, collect_mode_fields, Collected}
use lib_agent_oauth.Authorize.{
  authorize_error_page, render_form, identity_via, event_resource, validated_request,
  authorize_form, verify_identity, issue_and_redirect,
}
use lib_agent_oauth.Pages.{
  EnrollFlow, EnrollView, choose_set, first_key, insert_some, render_binding_chooser,
  render_chooser, render_enroll_choice, render_page,
}
use lib_agent_oauth.EnrollFlow.{
  enrolled_event, fields_view, finish, finish_binding, finish_choice, finish_merged, finish_ok,
  join_labels, show, submit_choice, submit_chosen, submit_collected, submit_fields, submitted_mode,
  with_mode,
}

-- resolveSetBindings gives the page that it shows, or the grant to issue.
pub data SetBindings : Type 0 where
  handled : Reply → SetBindings
  granted : PrincipalGrant → SetBindings

abbrev pub is_binding_choice : AuthorizeStep → Bool
is_binding_choice binding_choice = true
is_binding_choice initial_approval = false
is_binding_choice enroll_fields = false
is_binding_choice enroll_choice = false

abbrev pub resolved_grant :
    Client → AuthParams → String → PrincipalGrant → Option (Map String) → SetBindings
resolved_grant client p pairing_code principal none =
    handled
      (render_binding_chooser client p pairing_code principal "Pick one of the offered values.")
resolved_grant client p pairing_code principal (some resolved) =
    granted (record { name = principal.name; binding = resolved })

-- resolveSetBindings
unfoldable pub resolve_set_bindings :
    Values → Client → AuthParams → PrincipalGrant → AuthorizeStep → SetBindings
resolve_set_bindings form client p principal step =
    if principal.name == "" || is_empty (set_valued_keys principal.binding)
    then granted principal
    else if not (is_binding_choice step)
    then handled (render_binding_chooser client p (get form "pairing_code") principal "")
    else resolved_grant client p (get form "pairing_code") principal
        (resolve_binding_choices principal.binding (λ key. get form ("choice_" ++ key)))

module _ ⦃env : Env⦄ where
  -- Whether the enrollment form is shown before a code is issued.
  abbrev pub must_enroll : Server → EnrollFlow → Bool
  must_enroll s f =
      is_empty (projected_binding s f.principal.binding f.p.resource)
      || not (get f.form "update_credentials" == "")

  -- divertToEnrollment for a named principal; `none` is `false`.
  unfoldable pub divert_step : Server → EnrollFlow → AuthorizeStep → Option (Handler (World env.S))
  divert_step s f enroll_fields = some (submit_fields s f)
  divert_step s f enroll_choice = some (submit_choice s f)
  divert_step s f initial_approval =
      if must_enroll s f
      then some (show (render_page f (record { error = ""; mode = ""; values = [] })))
      else none
  divert_step s f binding_choice =
      if must_enroll s f
      then some (show (render_page f (record { error = ""; mode = ""; values = [] })))
      else none

  abbrev pub enroll_flow : Values → Client → AuthParams → PrincipalGrant → Enrollment → EnrollFlow
  enroll_flow form client p principal e = record {
    form = form;
    client = client;
    p = p;
    principal = principal;
    pairing_code = get form "pairing_code";
    e = e;
  }

  abbrev pub divert_if :
      Server
      → Values
      → Client
      → AuthParams
      → PrincipalGrant
      → AuthorizeStep
      → Option Enrollment
      → Option (Handler (World env.S))
  divert_if s form client p principal step none = none
  divert_if s form client p principal step (some e) =
      if principal.name == ""
      then none
      else divert_step s (enroll_flow form client p principal e) step

  -- divertToEnrollment
  unfoldable pub divert_to_enrollment :
      Server
      → Values
      → Client
      → AuthParams
      → PrincipalGrant
      → AuthorizeStep
      → Option (Handler (World env.S))
  divert_to_enrollment s form client p principal step =
      divert_if s form client p principal step (enrollment_for s p.resource)

  abbrev pub issue_resolved :
      Server → Values → Client → AuthParams → SetBindings → Handler (World env.S)
  issue_resolved s form client p (handled r) = show r
  issue_resolved s form client p (granted g) = issue_and_redirect s form client p g

  abbrev pub divert_or :
      Option (Handler (World env.S)) → Handler (World env.S) → Handler (World env.S)
  divert_or none next = next
  divert_or (some h) next = h

  abbrev pub paired_event : Server → Values → Client → AuthParams → PrincipalGrant → Event
  paired_event s form client p principal = record {
    type = paired;
    principal = principal.name;
    client = client.name;
    resource = event_resource s p;
    via = identity_via form;
  }

  -- The event of the initial approval.
  unfoldable pub announce_pairing :
      Server
      → Values
      → Client
      → AuthParams
      → PrincipalGrant
      → AuthorizeStep
      → World env.S
      → World env.S
  announce_pairing s form client p principal initial_approval w =
      event s (paired_event s form client p principal) w
  announce_pairing s form client p principal enroll_fields w = w
  announce_pairing s form client p principal enroll_choice w = w
  announce_pairing s form client p principal binding_choice w = w

  -- authorizeSubmit after the identity is verified.
  unfoldable pub approve :
      Server → Values → Client → AuthParams → PrincipalGrant → AuthorizeStep → Handler (World env.S)
  approve s form client p principal step w =
      divert_or (divert_to_enrollment s form client p principal step)
        (issue_resolved s form client p (resolve_set_bindings form client p principal step))
        (announce_pairing s form client p principal step w)

  abbrev pub approve_identity :
      Server → Values → Client → AuthParams → Option PrincipalGrant → Handler (World env.S)
  approve_identity s form client p none =
      show (render_form s client p "Incorrect pairing code — try again." "")
  approve_identity s form client p (some principal) =
      approve s form client p principal (classify_step form)

  -- authorizeSubmit
  unfoldable pub authorize_submit : Server → Request → Values → AuthParams → Handler (World env.S)
  authorize_submit s r form p = validated_request s p λ client.
      on (verify_identity s r form) (approve_identity s form client p)
        (λ _. show (authorize_error_page "internal error verifying the pairing code"))

  abbrev pub submit_parsed : Server → Request → Option Values → Handler (World env.S)
  submit_parsed s r none = show (authorize_error_page "could not parse the form")
  submit_parsed s r (some form) = authorize_submit s r form (parse_auth_params form)

  -- handleAuthorize
  unfoldable pub handle_authorize : Server → Request → Handler (World env.S)
  handle_authorize s r =
      if r.method == "GET"
      then authorize_form s r (parse_auth_params r.query)
      else if r.method == "POST"
      then submit_parsed s r r.form
      else show (record (oauth_error_reply 405 "invalid_request" "method not allowed") {
        allow = some "GET, POST";
      })

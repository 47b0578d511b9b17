-- ===== src/Tests/Flow.antt =====
-- The authorization endpoint at concrete inputs.
use lib_agent_oauth.Prelude.{String, ◌≡◌, refl, inl, true, false, some, none, [], ◌∷◌, ◌⊎◌}
use lib_agent_oauth.Exec.{ok, err}
use lib_agent_oauth.Map
use lib_agent_oauth.Map.{Map}
use lib_agent_oauth.Env.{Stored, document, plain}
use lib_agent_oauth.Json.Codec
use lib_agent_oauth.JsonMap
use lib_agent_oauth.Store
use lib_agent_oauth.Random
use lib_agent_oauth.Encode
use lib_agent_oauth.Text
use lib_agent_oauth.Model.{World}
use lib_agent_oauth.Http
use lib_agent_oauth.Http.{Url, redirect, Values, Request, Reply, Body, FieldView, ModeView}
use lib_agent_oauth.Clients
use lib_agent_oauth.Clients.{Client, client_codec}
use lib_agent_oauth.AuthCode
use lib_agent_oauth.Pairing
use lib_agent_oauth.Principal.Codec as RecordCodec
use lib_agent_oauth.Principal.Codec.{record_codec}
use lib_agent_oauth.Principal.Verify as Verify
use lib_agent_oauth.Identity
use lib_agent_oauth.Server
use lib_agent_oauth.Server.{Server}
use lib_agent_oauth.Enrollment.{
  CredentialField, CredentialMode, Enrollment, EnrollChoice, validate, validate_modes,
  validate_fields,
}
use lib_agent_oauth.Enrollment.Laws.{validate-IsUsable}
use lib_agent_oauth.AuthParams
use lib_agent_oauth.AuthParams.{AuthParams, parse_auth_params, enroll_choice}
use lib_agent_oauth.Choose
use lib_agent_oauth.Choose.{set_valued_keys, resolve_binding_choices}
use lib_agent_oauth.Choose.Laws.{IsResolved, resolve_binding_choices_lem}
use lib_agent_oauth.EnrollView
use lib_agent_oauth.EnrollView.{
  field_input_name, value_or_blank, enroll_mode_views, collect_mode_fields,
}
use lib_agent_oauth.EnrollView.Laws.{IsRead, collect_mode_fields-IsRead}
use lib_agent_oauth.Authorize
use lib_agent_oauth.Authorize.Gates.{Quiet}
use lib_agent_oauth.Approve
use lib_agent_oauth.Approve.{handle_authorize}
use lib_agent_oauth.Pages.{render_enroll_choice}
use lib_agent_oauth.Pages.Laws.{Carries, hidden_in, render_enroll_choice-Carries}
use lib_agent_oauth.Approve.Outcome.{Approval}
use lib_agent_oauth.Approve.Flow.{IsSafe, handle_authorize-Approval, handle_authorize-IsSafe}
use lib_agent_oauth.Tests.Fixture.{alice, principals, test_env, server, post_of}

abbrev pub callback : String
callback = "https://app.example/cb"

abbrev pub app : Client
app = record { id = "c1"; redirect_uris = callback ∷ []; name = "app" }

-- A client and two principals are stored, and no code.
abbrev pub before : World (Map Stored)
before = record {
  store =
      ("clients", document (Codec.encode_map client_codec (("c1", app) ∷ [])))
      ∷ ("principals", document (Codec.encode_map record_codec principals))
      ∷ ("pairing-code", plain "mcp-CCCCC")
      ∷ [];
  codes = [];
  drawn = 0;
  now = 10;
  events = [];
}

-- A server without sessions.
abbrev pub plain_server : Server
plain_server = record server { session_ttl = none }

abbrev pub approval_form : Values
approval_form =
    ("client_id", "c1")
    ∷ ("redirect_uri", callback)
    ∷ ("response_type", "code")
    ∷ ("code_challenge", "AA")
    ∷ ("code_challenge_method", "S256")
    ∷ ("state", "xyz")
    ∷ ("pairing_code", "mcp-AAAAA")
    ∷ []

abbrev pub approval : Request
approval = post_of approval_form

abbrev answered : Reply
answered = (handle_authorize plain_server approval before).0

abbrev pub after : World (Map Stored)
after = (handle_authorize plain_server approval before).1

-- Where the browser is sent.
abbrev target : Url
target = record {
  scheme = "https";
  host = "app.example";
  hostname = "app.example";
  rest = callback;
  query = ("state", "xyz") ∷ ("code", "AAAAAAAAAAAAAAAAAAAAAAAAAAAAAAAAAAAAAAAAAAA") ∷ [];
}

sent : answered.body ≡ redirect target
unfolding handle_authorize Approve.authorize_submit Approve.approve Approve.announce_pairing
    Approve.divert_to_enrollment Approve.resolve_set_bindings parse_auth_params
    AuthParams.classify_step Authorize.validated_request Authorize.validate_client_redirect
    Authorize.check_client Authorize.gate_params Authorize.validate_auth_params
    Authorize.verify_identity Authorize.issue_and_redirect Authorize.issue_code
    Authorize.redirect_with Authorize.granted_scope Authorize.event_resource Clients.get
    Clients.allows_redirect Clients.encode_client Clients.decode_client Http.get Map.lookup
    Map.insert Map.delete JsonMap.get JsonMap.load JsonMap.store_get JsonMap.read_map
    JsonMap.unmarshal Store.mem_store Codec.encode_map Codec.decode_map Codec.encode_members
    Codec.decode_members Codec.put_map RecordCodec.encode_record RecordCodec.decode_record
    Verify.verify_principal Verify.candidates Verify.named_candidates Verify.keys Verify.sorted
    Verify.match_all Pairing.shared_code Pairing.equal_pairing Pairing.normalize_pairing
    Identity.code_entered Identity.maybe_start_session Server.enrollment_for Server.resolve_resource
    Server.event Text.trim_space Text.trim_left Text.trim_right Text.trim_prefix Text.strip_prefix
    Text.map_chars Text.drop_chars Choose.set_valued_keys Choose.set_keys Choose.binding_set
    Choose.has_separator AuthCode.issue AuthCode.put Random.rand_token Random.read_random
    Encode.encode64 Codec.as_texts Codec.decode_texts Codec.encode_texts
sent = refl

handle_authorize-Approval_example :
    Quiet before after
    ⊎ ((form : Values) × (approval.method ≡ "POST")
        × (approval.form ≡ some form)
        × Approval plain_server approval form before answered after)
handle_authorize-Approval_example =
    handle_authorize-Approval plain_server approval before after answered refl

handle_authorize-IsSafe_example : IsSafe approval before target
handle_authorize-IsSafe_example =
    handle_authorize-IsSafe plain_server approval before after answered target refl sent

-- A binding with a set, and the choice of one member.
abbrev binding : Map String
binding = ("site", "one, two") ∷ ("api_key", "k1") ∷ []

abbrev chosen : String → String
chosen key = "two"

abbrev narrowed : Map String
narrowed = ("site", "two") ∷ ("api_key", "k1") ∷ []

resolved : resolve_binding_choices binding chosen ≡ some narrowed
unfolding resolve_binding_choices Choose.binding_set Choose.has_separator Choose.split
    Choose.members_of Text.trim_space Text.trim_left Text.trim_right Map.insert Map.delete
resolved = refl

resolve_binding_choices_lem_example :
    (set_valued_keys narrowed ≡ [])
    × ((k : String) → Map.lookup k binding ≡ none → Map.lookup k narrowed ≡ none)
    × ((k v : String)
        → Map.lookup k binding ≡ some v
        → IsResolved v (chosen k) (Map.lookup k narrowed))
resolve_binding_choices_lem_example = resolve_binding_choices_lem binding chosen narrowed resolved

abbrev params : AuthParams
params = record {
  client_id = "c1";
  redirect_uri = callback;
  state = "xyz";
  scope = "";
  resource = "";
  code_challenge = "AA";
  code_challenge_method = "S256";
  response_type = "code";
}

abbrev offer : EnrollChoice
offer = record {
  prompt = "Which workspace?";
  options = record { value = "w1"; label = "One" } ∷ [];
  state = "round-1";
}

abbrev choice_page : Reply
choice_page = render_enroll_choice app params "mcp-AAAAA" alice "token" offer ""

render_enroll_choice-Carries_example :
    Carries params "mcp-AAAAA" enroll_choice choice_page
    × (Http.get (hidden_in choice_page.body) "enroll_mode" ≡ "token")
    × (Http.get (hidden_in choice_page.body) "enroll_state" ≡ "round-1")
render_enroll_choice-Carries_example =
    render_enroll_choice-Carries app params "mcp-AAAAA" alice "token" offer ""

-- An enrollment with one mode: a site, which is optional, and a secret.
abbrev site_field : CredentialField
site_field = record {
  key = "site";
  label = "Site";
  help = "";
  snippet = "";
  secret = false;
  optional = true;
}

abbrev secret_field : CredentialField
secret_field = record {
  key = "token";
  label = "Token";
  help = "";
  snippet = "";
  secret = true;
  optional = false;
}

abbrev token_mode : CredentialMode
token_mode = record { key = "token"; label = "API token"; fields = site_field ∷ secret_field ∷ [] }

abbrev enrollment : Enrollment
enrollment = record {
  descriptor = record { title = "Connect"; intro = ""; modes = token_mode ∷ [] };
  enroll = λ r. err "refused";
}

valid_enrollment : validate enrollment ≡ ok tt
unfolding validate validate_modes validate_fields
valid_enrollment = refl

-- Every input of the form has the same text.
abbrev submitted : String → String
submitted name = " k9 "

collect_mode_fields-IsRead_example :
    IsRead token_mode submitted (collect_mode_fields token_mode submitted)
collect_mode_fields-IsRead_example =
    collect_mode_fields-IsRead enrollment token_mode submitted
      (validate-IsUsable enrollment valid_enrollment) (inl refl)

abbrev form_values : Map String
form_values = ("site", "s1") ∷ ("token", "k9") ∷ []

abbrev secret_view : FieldView
secret_view = record {
  name = "field_token_token";
  label = "Token";
  help = "";
  snippet = "";
  value = "";
  secret = true;
  optional = false;
}

abbrev site_view : FieldView
site_view = record {
  name = "field_token_site";
  label = "Site";
  help = "";
  snippet = "";
  value = "s1";
  secret = false;
  optional = true;
}

abbrev token_view : ModeView
token_view = record {
  key = "token";
  label = "API token";
  selected = true;
  fields = site_view ∷ secret_view ∷ [];
}

viewed : enroll_mode_views enrollment.descriptor "token" form_values ≡ token_view ∷ []
unfolding enroll_mode_views EnrollView.mode_view EnrollView.field_view field_input_name Map.lookup
viewed = refl

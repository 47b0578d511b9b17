-- ===== src/Tests/Ready.antt =====
-- An approval that nothing stands against, at concrete inputs.
use lib_agent_oauth.Prelude.{refl, ne_of_test, inl, inr, []}
use lib_agent_oauth.Map
use lib_agent_oauth.Map.{Map}
use lib_agent_oauth.Json.Codec
use lib_agent_oauth.JsonMap
use lib_agent_oauth.Store
use lib_agent_oauth.Random
use lib_agent_oauth.Encode
use lib_agent_oauth.Text
use lib_agent_oauth.Http
use lib_agent_oauth.Http.{Url, redirect, Values, Request, Reply, Body, FieldView, ModeView}
use lib_agent_oauth.Clients
use lib_agent_oauth.Clients.{Client, client_codec}
use lib_agent_oauth.AuthCode
use lib_agent_oauth.Pairing
use lib_agent_oauth.Principal.Codec as RecordCodec
use lib_agent_oauth.Principal.Codec.{record_codec}
use lib_agent_oauth.Principal.Verify as Verify
use lib_agent_oauth.Identity
use lib_agent_oauth.Server
use lib_agent_oauth.Server.{Server}
use lib_agent_oauth.AuthParams
use lib_agent_oauth.AuthParams.{AuthParams, parse_auth_params, enroll_choice}
use lib_agent_oauth.Choose
use lib_agent_oauth.Choose.{set_valued_keys, resolve_binding_choices}
use lib_agent_oauth.Authorize
use lib_agent_oauth.Approve
use lib_agent_oauth.Approve.{handle_authorize}
use lib_agent_oauth.Tests.Fixture.{alice, test_env}
use lib_agent_oauth.Principal.Verify.{verify_principal}
use lib_agent_oauth.Approve.Ready.{IsReady, NeverFails}
use lib_agent_oauth.Approve.Issues.{GetsCode, handle_authorize-GetsCode}
use lib_agent_oauth.Tests.Flow.{app, plain_server, approval, approval_form, before}

never : NeverFails
never = record { draws = λ n k. (_, refl) }

ready : IsReady plain_server approval approval_form before
unfolding Approve.authorize_submit Approve.approve Approve.announce_pairing
    Approve.divert_to_enrollment Approve.resolve_set_bindings parse_auth_params
    AuthParams.classify_step Authorize.validated_request Authorize.validate_client_redirect
    Authorize.check_client Authorize.gate_params Authorize.validate_auth_params
    Authorize.verify_identity Authorize.issue_and_redirect Authorize.issue_code
    Authorize.redirect_with Authorize.granted_scope Authorize.event_resource Clients.get
    Clients.allows_redirect Clients.encode_client Clients.decode_client Http.get Map.lookup
    Map.insert Map.delete JsonMap.get JsonMap.load JsonMap.store_get JsonMap.read_map
    JsonMap.unmarshal Store.mem_store Codec.encode_map Codec.decode_map Codec.encode_members
    Codec.decode_members Codec.put_map RecordCodec.encode_record RecordCodec.decode_record
    Verify.verify_principal Verify.candidates Verify.named_candidates Verify.keys Verify.sorted
    Verify.match_all Pairing.shared_code Pairing.equal_pairing Pairing.normalize_pairing
    Identity.code_entered Identity.maybe_start_session Server.enrollment_for Server.resolve_resource
    Server.event Text.trim_space Text.trim_left Text.trim_right Text.trim_prefix Text.strip_prefix
    Text.map_chars Text.drop_chars Choose.set_valued_keys Choose.set_keys Choose.binding_set
    Choose.has_separator AuthCode.issue AuthCode.put Random.rand_token Random.read_random
    Encode.encode64 Codec.as_texts Codec.decode_texts Codec.encode_texts
ready = record {
  method = refl;
  parsed = refl;
  client_id = ne_of_test "c1" "" refl;
  client = app;
  at = before;
  registered = refl;
  some_uri = ne_of_test "https://app.example/cb" "" refl;
  allowed = refl;
  url = record {
    scheme = "https";
    host = "app.example";
    hostname = "app.example";
    rest = "https://app.example/cb";
    query = [];
  };
  parses = refl;
  code_request = record {
    response_type = refl;
    challenge = ne_of_test "AA" "" refl;
    challenge_method = refl;
  };
  resource = "https://mcp.example";
  served = refl;
  first_round = refl;
  identity = alice;
  after = before;
  verified = refl;
  bound = inl refl;
  no_sets = inr refl;
}

handle_authorize-GetsCode_example :
    GetsCode plain_server
      (parse_auth_params approval_form)
      ready.url
      ready.client
      ready.identity
      (handle_authorize plain_server approval before).0
      (handle_authorize plain_server approval before).1
handle_authorize-GetsCode_example =
    handle_authorize-GetsCode plain_server approval approval_form before never ready

-- ===== src/Tests/Life.antt =====
-- An approval and the redemption of its code, at concrete inputs.
use lib_agent_oauth.Prelude.{◌≡◌, refl, [], ◌∷◌}
use lib_agent_oauth.Map
use lib_agent_oauth.Map.{Map}
use lib_agent_oauth.Env.{Stored}
use lib_agent_oauth.Json.Codec
use lib_agent_oauth.JsonMap
use lib_agent_oauth.Store
use lib_agent_oauth.Random
use lib_agent_oauth.Encode
use lib_agent_oauth.Text
use lib_agent_oauth.Model.{World}
use lib_agent_oauth.Http
use lib_agent_oauth.Http.{Url, redirect, Values, Request, Reply, Body, FieldView, ModeView}
use lib_agent_oauth.Clients
use lib_agent_oauth.Clients.{Client, client_codec}
use lib_agent_oauth.AuthCode
use lib_agent_oauth.Pairing
use lib_agent_oauth.Principal.Codec as RecordCodec
use lib_agent_oauth.Principal.Codec.{record_codec}
use lib_agent_oauth.Principal.Verify as Verify
use lib_agent_oauth.Identity
use lib_agent_oauth.Server
use lib_agent_oauth.Server.{Server}
use lib_agent_oauth.AuthParams
use lib_agent_oauth.AuthParams.{AuthParams, parse_auth_params, enroll_choice}
use lib_agent_oauth.Choose
use lib_agent_oauth.Choose.{set_valued_keys, resolve_binding_choices}
use lib_agent_oauth.Authorize
use lib_agent_oauth.Approve
use lib_agent_oauth.Approve.{handle_authorize}
use lib_agent_oauth.Tests.Fixture.{test_env, post_of}
use lib_agent_oauth.Pkce
use lib_agent_oauth.Token
use lib_agent_oauth.Refresh
use lib_agent_oauth.Refresh.Codec as RefreshCodec
use lib_agent_oauth.Grant
use lib_agent_oauth.Model
use lib_agent_oauth.Grant.{handle_token}
use lib_agent_oauth.System.{Reaches, here, then_step, authorizes}
use lib_agent_oauth.System.Origin.{HasOrigins, reachable-HasOrigins}
use lib_agent_oauth.System.Authorized.{IsAuthorized, handle_token-IsAuthorized}
use lib_agent_oauth.Tests.Flow.{plain_server, approval, before, after, callback}

abbrev token_form : Values
token_form =
    ("grant_type", "authorization_code")
    ∷ ("code", "AAAAAAAAAAAAAAAAAAAAAAAAAAAAAAAAAAAAAAAAAAA")
    ∷ ("client_id", "c1")
    ∷ ("redirect_uri", callback)
    ∷ ("code_verifier", "v")
    ∷ []

abbrev redemption : Request
redemption = post_of token_form

abbrev tokens : Reply
tokens = (handle_token plain_server redemption after).0

abbrev at_last : World (Map Stored)
at_last = (handle_token plain_server redemption after).1

redeems_code : Http.get token_form "grant_type" ≡ "authorization_code"
unfolding Http.get Map.lookup
redeems_code = refl

reached : Reaches plain_server before after
reached = then_step here (authorizes approval)

reachable-HasOrigins_example : HasOrigins plain_server before after
reachable-HasOrigins_example = reachable-HasOrigins plain_server before after refl reached

granted : tokens.status ≡ 200
unfolding handle_authorize Approve.authorize_submit Approve.approve Approve.announce_pairing
    Approve.divert_to_enrollment Approve.resolve_set_bindings parse_auth_params
    AuthParams.classify_step Authorize.validated_request Authorize.validate_client_redirect
    Authorize.check_client Authorize.gate_params Authorize.validate_auth_params
    Authorize.verify_identity Authorize.issue_and_redirect Authorize.issue_code
    Authorize.redirect_with Authorize.granted_scope Authorize.event_resource Clients.get
    Clients.allows_redirect Clients.encode_client Clients.decode_client Http.get Map.lookup
    Map.insert Map.delete JsonMap.get JsonMap.load JsonMap.store_get JsonMap.read_map
    JsonMap.unmarshal Store.mem_store Codec.encode_map Codec.decode_map Codec.encode_members
    Codec.decode_members Codec.put_map RecordCodec.encode_record RecordCodec.decode_record
    Verify.verify_principal Verify.candidates Verify.named_candidates Verify.keys Verify.sorted
    Verify.match_all Pairing.shared_code Pairing.equal_pairing Pairing.normalize_pairing
    Identity.code_entered Identity.maybe_start_session Server.enrollment_for Server.resolve_resource
    Server.event Text.trim_space Text.trim_left Text.trim_right Text.trim_prefix Text.strip_prefix
    Text.map_chars Text.drop_chars Choose.set_valued_keys Choose.set_keys Choose.binding_set
    Choose.has_separator AuthCode.issue AuthCode.put Random.rand_token Random.read_random
    Encode.encode64 Codec.as_texts Codec.decode_texts Codec.encode_texts handle_token
    Grant.dispatch_grant Grant.grant_auth_code Grant.exchange_code Grant.issue_tokens
    AuthCode.consume AuthCode.unexpired Pkce.verify_pkce Token.mint_for Refresh.issue JsonMap.mutate
    JsonMap.save JsonMap.commit JsonMap.store_set RefreshCodec.encode_refresh
    RefreshCodec.decode_refresh RefreshCodec.encode_principal RefreshCodec.decode_principal
    Model.is_anonymous
granted = refl

handle_token-IsAuthorized_example : IsAuthorized plain_server before token_form after tokens at_last
handle_token-IsAuthorized_example =
    handle_token-IsAuthorized plain_server before after at_last redemption token_form tokens refl
      reached refl redeems_code refl granted

-- ===== src/Tests/Codes.antt =====
-- The token endpoint and the codes at concrete inputs.
use lib_agent_oauth.Prelude.{◌+◌, ◌⊎◌, [], ◌≡◌, refl, true, Option, some, none, arith, ne_of_test}
use lib_agent_oauth.Exec.{ok}
use lib_agent_oauth.Jwt.{hmac_key}
use lib_agent_oauth.AuthCode
use lib_agent_oauth.AuthCode.Laws
use lib_agent_oauth.AuthCode.{consume, unexpired}
use lib_agent_oauth.Refresh
use lib_agent_oauth.Map
use lib_agent_oauth.Grant.{
  handle_token, grant_auth_code, dispatch_grant, exchange_code, issue_tokens, exchange_refresh,
  grant_refresh, bad_grant,
}
use lib_agent_oauth.Grant.Code.{Redeemed, handle_token-Redeemed}
use lib_agent_oauth.Grant.Rotation.{Rotated, handle_token-Rotated}
use lib_agent_oauth.Grant.Succeeds.{IsRedeemable, IsWorking, Succeeds, handle_token-Succeeds}
use lib_agent_oauth.Grant.Outlives.{remove_principal-outlived}
use lib_agent_oauth.Pairing.{rotate}
use lib_agent_oauth.System
use lib_agent_oauth.System.Origin.{HasOrigin}
use lib_agent_oauth.System.Replay.{handle_token-no_replay}
use lib_agent_oauth.JsonMap.Laws as MapLaws
use lib_agent_oauth.Model.{World, AuthGrant}
use lib_agent_oauth.Env.{Stored}
use lib_agent_oauth.JsonMap
use lib_agent_oauth.Json.Codec
use lib_agent_oauth.Refresh.Codec as RefreshCodec
use lib_agent_oauth.Random
use lib_agent_oauth.Token
use lib_agent_oauth.Encode
use lib_agent_oauth.Pkce
use lib_agent_oauth.Http
use lib_agent_oauth.Store
use lib_agent_oauth.Store.Laws.{mem_store-IsLawful}
use lib_agent_oauth.Session
use lib_agent_oauth.Principal.Codec as RecordCodec
use lib_agent_oauth.Principal.{remove_principal}
use lib_agent_oauth.Tests.Fixture.{
  alice, alice_refresh, tokens, test_env, world, code_grant, server, code_form, refresh_form,
  post_of,
}

redeemed : (handle_token server (post_of code_form) world).0.status ≡ 200
unfolding handle_token dispatch_grant grant_auth_code exchange_code issue_tokens consume unexpired
    Map.lookup Map.delete Map.insert Refresh.issue Random.rand_token Random.read_random
    JsonMap.mutate JsonMap.load JsonMap.save JsonMap.commit JsonMap.store_get JsonMap.store_set
    JsonMap.read_map JsonMap.unmarshal Token.mint_for Encode.encode64 Pkce.verify_pkce Http.get
    Store.mem_store Codec.decode_map Codec.encode_map Codec.encode_members Codec.decode_members
    RefreshCodec.encode_refresh RefreshCodec.decode_refresh RefreshCodec.encode_principal
    RefreshCodec.decode_principal lib_agent_oauth.Model.is_anonymous Codec.put_map
redeemed = refl

rotated : (handle_token server (post_of refresh_form) world).0.status ≡ 200
unfolding handle_token dispatch_grant grant_refresh exchange_refresh issue_tokens Refresh.exchange
    Map.lookup Map.delete Map.insert Refresh.issue Random.rand_token Random.read_random
    JsonMap.mutate JsonMap.load JsonMap.save JsonMap.commit JsonMap.store_get JsonMap.store_set
    JsonMap.read_map JsonMap.unmarshal Token.mint_for Encode.encode64 Http.get Store.mem_store
    Codec.decode_map Codec.encode_map Codec.encode_members Codec.decode_members
    RefreshCodec.encode_refresh RefreshCodec.decode_refresh RefreshCodec.encode_principal
    RefreshCodec.decode_principal lib_agent_oauth.Model.is_anonymous Codec.put_map
rotated = refl

code_kind : Http.get code_form "grant_type" ≡ "authorization_code"
unfolding Http.get Map.lookup
code_kind = refl

refresh_kind : Http.get refresh_form "grant_type" ≡ "refresh_token"
unfolding Http.get Map.lookup
refresh_kind = refl

redeemable : IsRedeemable code_form world code_grant
unfolding Http.get Map.lookup Pkce.verify_pkce Encode.encode64
redeemable = record {
  stored = refl;
  fresh = omega arith;
  client = refl;
  redirect_uri = refl;
  proof = refl;
}

consumed : consume "code1" world ≡ (ok (some code_grant), (consume "code1" world).1)
unfolding consume unexpired Map.lookup
consumed = refl

exchanged : Refresh.exchange "r1" world ≡ (ok (some alice_refresh), (Refresh.exchange "r1" world).1)
unfolding Refresh.exchange JsonMap.mutate JsonMap.load JsonMap.store_get Store.mem_store
    JsonMap.read_map Map.lookup JsonMap.unmarshal Codec.decode_map Codec.encode_map
    Codec.decode_members Codec.encode_members RefreshCodec.decode_refresh
    RefreshCodec.encode_refresh RefreshCodec.decode_principal lib_agent_oauth.Model.is_anonymous
    RefreshCodec.encode_principal Codec.put_map JsonMap.commit JsonMap.save JsonMap.store_set
    Map.delete Map.insert
exchanged = refl

handle_token-Redeemed_example :
    let (rep, w') = handle_token server (post_of code_form) world in
    ((post_of code_form).method ≡ "POST") × Redeemed server code_form world rep w'
handle_token-Redeemed_example =
    handle_token-Redeemed server (post_of code_form) code_form world
      (handle_token server (post_of code_form) world).1
      (handle_token server (post_of code_form) world).0 refl code_kind refl redeemed

-- The server after the code was presented, the shared code was rotated and ten seconds have passed.
abbrev spent : World (Map.Map Stored)
spent = (handle_token server (post_of code_form) world).1

abbrev later : World (Map.Map Stored)
later = record (rotate spent).1 { now = (rotate spent).1.now + 10000000000 }

handle_token-no_replay_example :
    ((handle_token server (post_of code_form) later).0
      ≡ bad_grant "authorization code is invalid or expired")
    ⊎ ((g : AuthGrant) × HasOrigin server spent later.now "code1" g
        × (Map.lookup "code1" later.codes ≡ some g))
unfolding Http.get Map.lookup
handle_token-no_replay_example =
    handle_token-no_replay server (post_of code_form) (post_of code_form) code_form code_form world
      later refl refl code_kind
      (System.then_step (System.then_step System.here System.rotates_code)
        (System.waits 10000000000))
      refl refl code_kind refl

handle_token-Rotated_example :
    let (rep, w') = handle_token server (post_of refresh_form) world in
    ((post_of refresh_form).method ≡ "POST") × Rotated server refresh_form world rep w'
handle_token-Rotated_example =
    handle_token-Rotated mem_store-IsLawful server (post_of refresh_form) refresh_form world
      (handle_token server (post_of refresh_form) world).1
      (handle_token server (post_of refresh_form) world).0 refl refresh_kind refl rotated

working : IsWorking server
unfolding Store.mem_store
working = record {
  key = hmac_key [];
  has_key = refl;
  signs = λ c. (c.subject, refl);
  draws = λ n k. (_, refl);
  writes = λ s k v. refl;
}

stored_tokens : Refresh.Laws.Tokens world tokens
unfolding MapLaws.reads Store.mem_store JsonMap.read_map Map.lookup JsonMap.unmarshal
    Codec.decode_map Codec.encode_map Codec.decode_members Codec.encode_members
    RefreshCodec.decode_refresh RefreshCodec.encode_refresh RefreshCodec.decode_principal
    lib_agent_oauth.Model.is_anonymous RefreshCodec.encode_principal Codec.put_map Map.insert
    Map.delete
stored_tokens = refl

handle_token-Succeeds_example :
    let (rep, w') = handle_token server (post_of code_form) world in
    Succeeds server code_grant rep w'
handle_token-Succeeds_example =
    handle_token-Succeeds mem_store-IsLawful server (post_of code_form) code_form world code_grant
      tokens refl refl code_kind redeemable working stored_tokens

consume-at_most_once_example :
    (consume "code1" (consume "code2" (consume "code1" world).1).1).0 ≡ ok none
consume-at_most_once_example =
    AuthCode.Laws.consume-at_most_once "code1" world (consume "code1" world).1
      (consume "code2" (consume "code1" world).1).1 consumed
      (AuthCode.Laws.consumes "code2" AuthCode.Laws.here)

exchange_once_example :
    Refresh.exchange "r1" (Refresh.exchange "r1" world).1
    ≡ (ok none, (Refresh.exchange "r1" world).1)
exchange_once_example =
    Refresh.Laws.exchange_once mem_store-IsLawful "r1" world (Refresh.exchange "r1" world).1
      exchanged

issued_code :
    AuthCode.issue 1000 code_grant world
    ≡ (ok "AAAAAAAAAAAAAAAAAAAAAAAAAAAAAAAAAAAAAAAAAAA", (AuthCode.issue 1000 code_grant world).1)
unfolding AuthCode.issue AuthCode.put Random.rand_token Random.read_random Encode.encode64
issued_code = refl

consume-issue_example :
    (consume "AAAAAAAAAAAAAAAAAAAAAAAAAAAAAAAAAAAAAAAAAAA"
      (record (AuthCode.issue 1000 code_grant world).1 { now = 11 })).0
    ≡ ok (some (record code_grant { expires_at = 1010 }))
consume-issue_example =
    AuthCode.Laws.consume-issue 1000 code_grant world (AuthCode.issue 1000 code_grant world).1 11
      issued_code

issued_token : Refresh.issue "c1" "mcp" "r" alice world ≡ (
  ok "AAAAAAAAAAAAAAAAAAAAAAAAAAAAAAAAAAAAAAAAAAA",
  (Refresh.issue "c1" "mcp" "r" alice world).1,
)
unfolding Refresh.issue Random.rand_token Random.read_random Encode.encode64 JsonMap.mutate
    JsonMap.load JsonMap.store_get Store.mem_store JsonMap.read_map Map.lookup JsonMap.unmarshal
    Codec.decode_map Codec.encode_map Codec.decode_members Codec.encode_members
    RefreshCodec.decode_refresh RefreshCodec.encode_refresh RefreshCodec.decode_principal
    lib_agent_oauth.Model.is_anonymous RefreshCodec.encode_principal Codec.put_map JsonMap.commit
    JsonMap.save JsonMap.store_set Map.delete Map.insert
issued_token = refl

reread :
    let w = (Refresh.issue "c1" "mcp" "r" alice world).1 in
    Refresh.exchange "AAAAAAAAAAAAAAAAAAAAAAAAAAAAAAAAAAAAAAAAAAA" (record w { now = 11 }) ≡ (
      ok (some (record { client_id = "c1"; scope = "mcp"; resource = "r"; principal = alice })),
      (Refresh.exchange "AAAAAAAAAAAAAAAAAAAAAAAAAAAAAAAAAAAAAAAAAAA" (record w { now = 11 })).1,
    )
unfolding Refresh.exchange Refresh.issue Random.rand_token Random.read_random Encode.encode64
    JsonMap.mutate JsonMap.load JsonMap.store_get Store.mem_store JsonMap.read_map Map.lookup
    JsonMap.unmarshal Codec.decode_map Codec.encode_map Codec.decode_members Codec.encode_members
    RefreshCodec.decode_refresh RefreshCodec.encode_refresh RefreshCodec.decode_principal
    lib_agent_oauth.Model.is_anonymous RefreshCodec.encode_principal Codec.put_map JsonMap.commit
    JsonMap.save JsonMap.store_set Map.delete Map.insert
reread = refl

abbrev reissued : Option RefreshCodec.RefreshGrant
reissued = some (record { client_id = "c1"; scope = "mcp"; resource = "r"; principal = alice })

exchange-issue_example :
    reissued ≡ some (record { client_id = "c1"; scope = "mcp"; resource = "r"; principal = alice })
exchange-issue_example =
    Refresh.Laws.exchange-issue mem_store-IsLawful "c1" "mcp" "r" alice world
      (Refresh.issue "c1" "mcp" "r" alice world).1
      (Refresh.exchange "AAAAAAAAAAAAAAAAAAAAAAAAAAAAAAAAAAAAAAAAAAA"
        (record (Refresh.issue "c1" "mcp" "r" alice world).1 { now = 11 })).1
      11 issued_token reread

removed : remove_principal "alice" world ≡ (ok true, (remove_principal "alice" world).1)
unfolding remove_principal Refresh.remove_for_principal Session.remove_for_principal Map.delete_if
    Map.any_value RecordCodec.encode_record RecordCodec.decode_record Session.encode_session
    Session.decode_session JsonMap.mutate JsonMap.load JsonMap.store_get Store.mem_store
    JsonMap.read_map Map.lookup JsonMap.unmarshal Codec.decode_map Codec.encode_map
    Codec.decode_members Codec.encode_members RefreshCodec.decode_refresh
    RefreshCodec.encode_refresh RefreshCodec.decode_principal lib_agent_oauth.Model.is_anonymous
    RefreshCodec.encode_principal Codec.put_map JsonMap.commit JsonMap.save JsonMap.store_set
    Map.delete Map.insert
removed = refl

remove_principal-outlived_example :
    let (rep, w'') = handle_token server (post_of code_form) (remove_principal "alice" world).1 in
    Succeeds server code_grant rep w''
remove_principal-outlived_example =
    remove_principal-outlived mem_store-IsLawful server (post_of code_form) code_form world
      (remove_principal "alice" world).1 code_grant refl refl code_kind redeemable working
      (ne_of_test "alice" "" refl) removed

-- ===== src/Tests/People.antt =====
-- Principals, sessions, audiences and the stores at concrete inputs.
use lib_agent_oauth.Prelude.{
  String, ◌≡◌, ◌≢◌, refl, true, false, some, none, [], ◌∷◌, arith, ne_of_test, ◌↔◌,
}
use lib_agent_oauth.Exec.{ok, err}
use lib_agent_oauth.Map
use lib_agent_oauth.Map.{Map}
use lib_agent_oauth.Env.{Stored, plain}
use lib_agent_oauth.Model.{World, PrincipalGrant, anonymous}
use lib_agent_oauth.JsonMap
use lib_agent_oauth.JsonMap.Laws.{stored}
use lib_agent_oauth.Json.Codec
use lib_agent_oauth.Random
use lib_agent_oauth.Encode
use lib_agent_oauth.Store
use lib_agent_oauth.Store.Laws.{mem_store-IsLawful, keyring_store-IsLawful, KeyringLaws}
use lib_agent_oauth.Refresh
use lib_agent_oauth.Refresh.Codec as RefreshCodec
use lib_agent_oauth.Session
use lib_agent_oauth.Principal
use lib_agent_oauth.Principal.Codec as RecordCodec
use lib_agent_oauth.Principal.{remove_principal, found, merge_binding, binding_of}
use lib_agent_oauth.Principal.Laws.{Principals, Changed}
use lib_agent_oauth.Principal.Verify
use lib_agent_oauth.Principal.Verify.{verify_principal}
use lib_agent_oauth.Principal.Verify.Laws.{Outcome, verify_principal-exact}
use lib_agent_oauth.Principal.Revoke.{Removed, remove_principal-ok}
use lib_agent_oauth.Principal.Revoked.{IsRevoked, remove_principal-IsRevoked}
use lib_agent_oauth.Pairing
use lib_agent_oauth.Pkce.{verify_pkce, verify_pkce_iff}
use lib_agent_oauth.Server.{Audiences, audiences, resolve_resource}
use lib_agent_oauth.Server.Laws.{resolve_resource-configured}
use lib_agent_oauth.Text
use lib_agent_oauth.Http
use lib_agent_oauth.Identity
use lib_agent_oauth.System.Unavailable.{on_keyring, Refuses, keyring_store-Refuses}
use lib_agent_oauth.Tests.Fixture.{test_env, world, server, alice, alice_session}

-- A keyring that is not there, and one in memory.
abbrev absent : Store.Keyring (Unit {0})
absent = record {
  available = λ k. false;
  get = λ k key. none;
  set = λ k key v. (ok tt, k);
  delete = λ k key. (ok tt, k);
  delete_all = λ k. (ok tt, k);
}

abbrev present : Store.Keyring (Map Stored)
present = record {
  available = λ k. true;
  get = λ k key. Map.lookup key k;
  set = λ k key v. (ok tt, Map.insert key v k);
  delete = λ k key. (ok tt, Map.delete key k);
  delete_all = λ k. (ok tt, []);
}

present_laws : KeyringLaws present
present_laws = record {
  stays_available = λ k k' key v h. refl;
  get-set = λ k k' key j v h. ground (arith, Map.lookup-insert key j v k);
}

named : alice.name ≢ ""
named = ne_of_test "alice" "" refl

removed : remove_principal "alice" world ≡ (ok true, (remove_principal "alice" world).1)
unfolding remove_principal Refresh.remove_for_principal Session.remove_for_principal JsonMap.mutate
    JsonMap.load JsonMap.store_get Store.mem_store JsonMap.read_map Map.lookup JsonMap.unmarshal
    Codec.decode_map Codec.encode_map Codec.decode_members Codec.encode_members
    RefreshCodec.decode_refresh RefreshCodec.encode_refresh RefreshCodec.decode_principal
    lib_agent_oauth.Model.is_anonymous RefreshCodec.encode_principal Codec.put_map JsonMap.commit
    JsonMap.save JsonMap.store_set Map.delete Map.insert Map.delete_if Map.any_value
    RecordCodec.encode_record RecordCodec.decode_record Session.encode_session
    Session.decode_session Random.rand_token Random.read_random Encode.encode64
removed = refl

looked_up : Session.lookup "s1" world ≡ (ok (some alice_session), world)
unfolding Session.lookup JsonMap.get JsonMap.mutate JsonMap.load JsonMap.store_get Store.mem_store
    JsonMap.read_map Map.lookup JsonMap.unmarshal Codec.decode_map Codec.encode_map
    Codec.decode_members Codec.encode_members RefreshCodec.decode_refresh
    RefreshCodec.encode_refresh RefreshCodec.decode_principal lib_agent_oauth.Model.is_anonymous
    RefreshCodec.encode_principal Codec.put_map JsonMap.commit JsonMap.save JsonMap.store_set
    Map.delete Map.insert Map.delete_if Map.any_value RecordCodec.encode_record
    RecordCodec.decode_record Session.encode_session Session.decode_session Random.rand_token
    Random.read_random Encode.encode64
looked_up = refl

issued :
    Session.issue 1000 alice world
    ≡ (ok "AAAAAAAAAAAAAAAAAAAAAAAAAAAAAAAAAAAAAAAAAAA", (Session.issue 1000 alice world).1)
unfolding Session.issue JsonMap.mutate JsonMap.load JsonMap.store_get Store.mem_store
    JsonMap.read_map Map.lookup JsonMap.unmarshal Codec.decode_map Codec.encode_map
    Codec.decode_members Codec.encode_members RefreshCodec.decode_refresh
    RefreshCodec.encode_refresh RefreshCodec.decode_principal lib_agent_oauth.Model.is_anonymous
    RefreshCodec.encode_principal Codec.put_map JsonMap.commit JsonMap.save JsonMap.store_set
    Map.delete Map.insert Map.delete_if Map.any_value RecordCodec.encode_record
    RecordCodec.decode_record Session.encode_session Session.decode_session Random.rand_token
    Random.read_random Encode.encode64
issued = refl

set :
    Principal.set_principal_binding "bob" [] world
    ≡ (ok true, (Principal.set_principal_binding "bob" [] world).1)
unfolding Principal.set_principal_binding Principal.mutate_existing JsonMap.mutate JsonMap.load
    JsonMap.store_get Store.mem_store JsonMap.read_map Map.lookup JsonMap.unmarshal Codec.decode_map
    Codec.encode_map Codec.decode_members Codec.encode_members RefreshCodec.decode_refresh
    RefreshCodec.encode_refresh RefreshCodec.decode_principal lib_agent_oauth.Model.is_anonymous
    RefreshCodec.encode_principal Codec.put_map JsonMap.commit JsonMap.save JsonMap.store_set
    Map.delete Map.insert Map.delete_if Map.any_value RecordCodec.encode_record
    RecordCodec.decode_record Session.encode_session Session.decode_session Random.rand_token
    Random.read_random Encode.encode64
set = refl

abbrev patch : Map String
patch = ("team", "acme") ∷ []

merged : Principal.merge_principal_binding "alice" patch world ≡ (
  ok (some (("team", "acme") ∷ ("api_key", "k1") ∷ [])),
  (Principal.merge_principal_binding "alice" patch world).1,
)
unfolding Principal.merge_principal_binding Principal.mutate_existing Map.copy JsonMap.mutate
    JsonMap.load JsonMap.store_get Store.mem_store JsonMap.read_map Map.lookup JsonMap.unmarshal
    Codec.decode_map Codec.encode_map Codec.decode_members Codec.encode_members
    RefreshCodec.decode_refresh RefreshCodec.encode_refresh RefreshCodec.decode_principal
    lib_agent_oauth.Model.is_anonymous RefreshCodec.encode_principal Codec.put_map JsonMap.commit
    JsonMap.save JsonMap.store_set Map.delete Map.insert Map.delete_if Map.any_value
    RecordCodec.encode_record RecordCodec.decode_record Session.encode_session
    Session.decode_session Random.rand_token Random.read_random Encode.encode64
merged = refl

verified :
    verify_principal "mcp AAAAA" world ≡ (ok (some alice), (verify_principal "mcp AAAAA" world).1)
unfolding verify_principal Verify.candidates Verify.match_all Verify.named_candidates Verify.sorted
    Verify.keys Pairing.shared_code Pairing.equal_pairing Pairing.normalize_pairing Text.trim_space
    Text.trim_left Text.trim_right Text.map_chars Text.drop_chars Text.trim_prefix Text.strip_prefix
    JsonMap.mutate JsonMap.load JsonMap.store_get Store.mem_store JsonMap.read_map Map.lookup
    JsonMap.unmarshal Codec.decode_map Codec.encode_map Codec.decode_members Codec.encode_members
    RefreshCodec.decode_refresh RefreshCodec.encode_refresh RefreshCodec.decode_principal
    lib_agent_oauth.Model.is_anonymous RefreshCodec.encode_principal Codec.put_map JsonMap.commit
    JsonMap.save JsonMap.store_set Map.delete Map.insert Map.delete_if Map.any_value
    RecordCodec.encode_record RecordCodec.decode_record Session.encode_session
    Session.decode_session Random.rand_token Random.read_random Encode.encode64
verified = refl

rotated_code :
    Pairing.rotate world ≡ (ok "mcp-00000-00000-00000-00000-00000", (Pairing.rotate world).1)
unfolding Pairing.rotate Pairing.generate_pairing_code Pairing.groups Pairing.join Text.take
    Encode.encode32 JsonMap.mutate JsonMap.load JsonMap.store_get Store.mem_store JsonMap.read_map
    Map.lookup JsonMap.unmarshal Codec.decode_map Codec.encode_map Codec.decode_members
    Codec.encode_members RefreshCodec.decode_refresh RefreshCodec.encode_refresh
    RefreshCodec.decode_principal lib_agent_oauth.Model.is_anonymous RefreshCodec.encode_principal
    Codec.put_map JsonMap.commit JsonMap.save JsonMap.store_set Map.delete Map.insert Map.delete_if
    Map.any_value RecordCodec.encode_record RecordCodec.decode_record Session.encode_session
    Session.decode_session Random.rand_token Random.read_random Encode.encode64
rotated_code = refl

remove_principal-IsRevoked_example : IsRevoked "alice" (remove_principal "alice" world).1
remove_principal-IsRevoked_example =
    remove_principal-IsRevoked mem_store-IsLawful "alice" world (remove_principal "alice" world).1
      named removed

remove_principal-ok_example :
    (r : Removed "alice" world (remove_principal "alice" world).1) × (true
      ≡ found (Map.lookup "alice" r.before))
remove_principal-ok_example =
    remove_principal-ok mem_store-IsLawful "alice" world (remove_principal "alice" world).1 named
      removed

verify_principal-exact_example :
    (shared : String) × (m : Map RecordCodec.PrincipalRecord) × (Pairing.shared_code world
      ≡ (ok shared, (verify_principal "mcp AAAAA" world).1))
    × Principals (verify_principal "mcp AAAAA" world).1 m
    × Outcome "mcp AAAAA" shared m (some alice)
verify_principal-exact_example =
    verify_principal-exact "mcp AAAAA" world (verify_principal "mcp AAAAA" world).1 verified

resolve_resource-configured_example :
    resolve_resource
      (audiences "https://a.example/" "" ("https://b.example/" ∷ []))
      "https://b.example/"
    ≡ some (Text.trim_slash "https://b.example/")
unfolding Text.trim_slash Text.trim_right
resolve_resource-configured_example =
    resolve_resource-configured "https://a.example/" "" ("https://b.example/" ∷ [])
      "https://b.example/" refl refl

abbrev mounts : Audiences
mounts = audiences "https://a.example/" "" ("https://b.example/" ∷ [])

resolved : resolve_resource mounts "https://b.example/" ≡ some "https://b.example"
unfolding resolve_resource audiences lib_agent_oauth.Server.add_resources Text.trim_slash
    Text.trim_right
resolved = refl

abbrev text : String → String
text s = s

verify_pkce_iff_example : (verify_pkce "AA" "S256" "v" ≡ true) ↔ (
    (text "S256" ≡ "S256")
    × (text "AA" ≢ "")
    × (text "v" ≢ "")
    × (Encode.encode64 (test_env.sha256 "v") ≡ "AA"))
verify_pkce_iff_example = verify_pkce_iff "AA" "S256" "v"

rotate-ok_example :
    (stored (Pairing.rotate world).1 "pairing-code"
      ≡ ok (some (plain "mcp-00000-00000-00000-00000-00000")))
    × ((j : String) → "pairing-code" ≢ j → stored (Pairing.rotate world).1 j ≡ stored world j)
rotate-ok_example =
    Pairing.Laws.rotate-ok mem_store-IsLawful world (Pairing.rotate world).1 rotated_code

merge_principal_binding-ok_example :
    (c : Changed "alice"
      (merge_binding patch)
      world
      (Principal.merge_principal_binding "alice" patch world).1)
    × (some (("team", "acme") ∷ ("api_key", "k1") ∷ []) ≡ binding_of (Map.lookup "alice" c.after))
    × ((r : RecordCodec.PrincipalRecord) (key : String)
        → Map.lookup "alice" c.before ≡ some r
        → (r' : RecordCodec.PrincipalRecord) × (Map.lookup "alice" c.after ≡ some r')
          × (r'.code ≡ r.code)
          × (Map.lookup key r'.binding
              ≡ Map.or_else (Map.lookup key patch) (Map.lookup key r.binding)))
merge_principal_binding-ok_example =
    Principal.Laws.merge_principal_binding-ok mem_store-IsLawful "alice" patch world
      (Principal.merge_principal_binding "alice" patch world).1 merged

lookup-issue_example :
    let w = (Session.issue 1000 alice world).1 in
    Session.lookup "AAAAAAAAAAAAAAAAAAAAAAAAAAAAAAAAAAAAAAAAAAA" (record w { now = 11 })
    ≡ (ok (some (Session.session_of 10 1000 alice)), record w { now = 11 })
lookup-issue_example =
    Session.Laws.lookup-issue mem_store-IsLawful 1000 alice world (Session.issue 1000 alice world).1
      11 issued

no_keyring : (Store.keyring_store absent).get tt "k" ≡ err Store.err_store_unavailable
unfolding Store.keyring_store
no_keyring = refl

abbrev offline : World (Unit {0})
offline = record { store = tt; codes = []; drawn = 0; now = 10; events = [] }

keyring_store-Refuses_example : Refuses ⦃env = on_keyring absent test_env⦄ server offline
keyring_store-Refuses_example = keyring_store-Refuses absent test_env server offline refl

kept_there : Store.IsLawful (Store.keyring_store present)
kept_there = keyring_store-IsLawful present present_laws

abbrev visit : Http.Request
visit = record {
  method = "GET";
  query = [];
  form = none;
  session_cookie = some "s1";
  authorization = "";
}

recognized : Identity.session_principal server visit world ≡ (ok (some alice), world)
unfolding Identity.session_principal Identity.identity_of Principal.grant_for Session.lookup
    JsonMap.get JsonMap.mutate JsonMap.load JsonMap.store_get Store.mem_store JsonMap.read_map
    Map.lookup JsonMap.unmarshal Codec.decode_map Codec.encode_map Codec.decode_members
    Codec.encode_members RefreshCodec.decode_refresh RefreshCodec.encode_refresh
    RefreshCodec.decode_principal lib_agent_oauth.Model.is_anonymous RefreshCodec.encode_principal
    Codec.put_map JsonMap.commit JsonMap.save JsonMap.store_set Map.delete Map.insert Map.delete_if
    Map.any_value RecordCodec.encode_record RecordCodec.decode_record Session.encode_session
    Session.decode_session Random.rand_token Random.read_random Encode.encode64
recognized = refl

session_principal-Resolved_example : Identity.Laws.Resolved visit world alice × (world ≡ world)
session_principal-Resolved_example =
    Identity.Laws.session_principal-Resolved server visit world world recognized

bob_removed : remove_principal "bob" world ≡ (ok true, (remove_principal "bob" world).1)
unfolding remove_principal Refresh.remove_for_principal Session.remove_for_principal
    Identity.session_principal Identity.identity_of Principal.grant_for Session.lookup JsonMap.get
    JsonMap.mutate JsonMap.load JsonMap.store_get Store.mem_store JsonMap.read_map Map.lookup
    JsonMap.unmarshal Codec.decode_map Codec.encode_map Codec.decode_members Codec.encode_members
    RefreshCodec.decode_refresh RefreshCodec.encode_refresh RefreshCodec.decode_principal
    lib_agent_oauth.Model.is_anonymous RefreshCodec.encode_principal Codec.put_map JsonMap.commit
    JsonMap.save JsonMap.store_set Map.delete Map.insert Map.delete_if Map.any_value
    RecordCodec.encode_record RecordCodec.decode_record Session.encode_session
    Session.decode_session Random.rand_token Random.read_random Encode.encode64
bob_removed = refl

still_recognized :
    Identity.session_principal server visit (remove_principal "bob" world).1
    ≡ (ok (some alice), (remove_principal "bob" world).1)
unfolding remove_principal Refresh.remove_for_principal Session.remove_for_principal
    Identity.session_principal Identity.identity_of Principal.grant_for Session.lookup JsonMap.get
    JsonMap.mutate JsonMap.load JsonMap.store_get Store.mem_store JsonMap.read_map Map.lookup
    JsonMap.unmarshal Codec.decode_map Codec.encode_map Codec.decode_members Codec.encode_members
    RefreshCodec.decode_refresh RefreshCodec.encode_refresh RefreshCodec.decode_principal
    lib_agent_oauth.Model.is_anonymous RefreshCodec.encode_principal Codec.put_map JsonMap.commit
    JsonMap.save JsonMap.store_set Map.delete Map.insert Map.delete_if Map.any_value
    RecordCodec.encode_record RecordCodec.decode_record Session.encode_session
    Session.decode_session Random.rand_token Random.read_random Encode.encode64
still_recognized = refl

session_principal-removed_example : alice.name ≢ "bob"
session_principal-removed_example =
    Identity.Laws.session_principal-removed mem_store-IsLawful server visit "bob" world
      (remove_principal "bob" world).1 (remove_principal "bob" world).1 (ne_of_test "bob" "" refl)
      bob_removed still_recognized

-- ===== src/Tests/Boot.antt =====
-- The start of a server at concrete inputs.
use Prim.Native.String.{◌++◌}
use lib_agent_oauth.Prelude.{
  ℕ, zero, suc, ◌%◌, ◌/◌, if◌then◌else◌, ne_of_test, ◌<◌, ◌≤◌, String, ◌≡◌, ◌≢◌, refl, contains, ap,
  subst, true, false, some, none, List, [], ◌∷◌, length, arith,
}
use lib_agent_oauth.Prelude
use lib_agent_oauth.Exec.{ok, err}
use lib_agent_oauth.Map
use lib_agent_oauth.Map.{Map}
use lib_agent_oauth.Env.{Env, Stored}
use lib_agent_oauth.Model.{World}
use lib_agent_oauth.JsonMap
use lib_agent_oauth.Store
use lib_agent_oauth.Store.Laws.{mem_store-IsLawful}
use lib_agent_oauth.Random
use lib_agent_oauth.Decode.Laws.{AreBytes}
use lib_agent_oauth.Text
use lib_agent_oauth.Server.{Server}
use lib_agent_oauth.Keys
use lib_agent_oauth.Keys.{new_key_from_seed, load_or_create_hmac_key, load_or_create_ed25519}
use lib_agent_oauth.Keys.Laws.{
  FillsBuffers, load_or_create_hmac_key-again, load_or_create_ed25519-again,
}
use lib_agent_oauth.Configure
use lib_agent_oauth.Configure.{Config, nanoseconds, negative, new_server}
use lib_agent_oauth.Configure.Laws.{IsConfigured, new_server-IsConfigured}
use lib_agent_oauth.Delegate
use lib_agent_oauth.Delegate.{
  resource_suffix, protected_resource_metadata_url, has_prefix, RsConfig, ResourceServer,
  new_resource_server,
}
use lib_agent_oauth.Delegate.Laws.{ReadsEdDsa, new_resource_server-checks}
use lib_agent_oauth.Metadata.{register_routes, resource_document}
use lib_agent_oauth.Metadata.Laws.{register_routes-found}
use lib_agent_oauth.Jwt.{Jwt, Claims, ed_dsa, private_key, public_key}
use lib_agent_oauth.Token.{Issuer, claims_of, mint_for, validate}
use lib_agent_oauth.Token.Laws.{accepts, ReadsBack, mint_for-validate}
use lib_agent_oauth.Tests.Fixture.{alice, bytes, test_env}

bytes-length : (n b : ℕ) → length (bytes n b) ≡ n
bytes-length zero b = refl
bytes-length (suc n) b = ap suc (bytes-length n b)

bytes-AreBytes : (n b : ℕ) → b < 256 → AreBytes (bytes n b)
bytes-AreBytes zero b h = tt
bytes-AreBytes (suc n) b h = (h, bytes-AreBytes n b h)

some_eq : {a b : List ℕ} → some a ≡ some b → a ≡ b
some_eq h = cc

fills : FillsBuffers
fills = record {
  size = λ n k b h. subst (λ l. length l ≡ k) (some_eq h) (bytes-length k (n % 256));
  bytes = λ n k b h. subst AreBytes (some_eq h) (bytes-AreBytes k (n % 256) (omega arith));
}

-- Nothing is stored, and the seventh read comes next.
abbrev blank : World (Map Stored)
blank = record { store = []; codes = []; drawn = 7; now = 10; events = [] }

abbrev key : List ℕ
key = bytes 32 7

abbrev with_key : World (Map Stored)
with_key = (load_or_create_hmac_key blank).1

made : load_or_create_hmac_key blank ≡ (ok key, with_key)
unfolding load_or_create_hmac_key JsonMap.store_get JsonMap.store_set Store.mem_store Map.lookup
    Random.read_random
made = refl

load_or_create_hmac_key-again_example :
    (32 ≤ length key) × (load_or_create_hmac_key with_key ≡ (ok key, with_key))
load_or_create_hmac_key-again_example =
    load_or_create_hmac_key-again mem_store-IsLawful fills blank with_key with_key key made refl

abbrev private : List ℕ
private = new_key_from_seed key

abbrev with_seed : World (Map Stored)
with_seed = (load_or_create_ed25519 blank).1

generated : load_or_create_ed25519 blank ≡ (ok private, with_seed)
unfolding load_or_create_ed25519 JsonMap.store_get JsonMap.store_set Store.mem_store Map.lookup
    Random.read_random
generated = refl

load_or_create_ed25519-again_example :
    ((seed : List ℕ) × (length seed ≡ 32) × (private ≡ new_key_from_seed seed))
    × (load_or_create_ed25519 with_seed ≡ (ok private, with_seed))
load_or_create_ed25519-again_example =
    load_or_create_ed25519-again mem_store-IsLawful fills blank with_seed with_seed private
      generated refl

abbrev config : Config
config = record {
  has_store = true;
  public_url = "https://auth.example/";
  resource = "https://auth.example/mcp";
  resources = "https://auth.example/slack/mcp" ∷ [];
  token_ttl = negative 0;
  scopes = [];
  enrollment = none;
  enrollment_for_resource = none;
  asymmetric = true;
  session_ttl = nanoseconds 0;
  binding_for_resource = none;
  observed = false;
}

abbrev built : Server
built = record {
  audiences = record {
    resource = "https://auth.example/mcp";
    resources = "https://auth.example/mcp" ∷ "https://auth.example/slack/mcp" ∷ [];
  };
  public_url = "https://auth.example";
  scopes = "mcp" ∷ [];
  issuer = record {
    method = lib_agent_oauth.Jwt.ed_dsa;
    sign_key = some (lib_agent_oauth.Jwt.private_key private);
    verify_key = lib_agent_oauth.Jwt.public_key key;
    issuer = "https://auth.example";
    audience = "https://auth.example/mcp";
    ttl = 3600000000000;
  };
  enrollment = none;
  enrollment_for_resource = none;
  binding_for_resource = none;
  session_ttl = none;
  observed = false;
}

started : new_server config blank ≡ (ok built, (new_server config blank).1)
unfolding new_server Configure.new_checked load_or_create_ed25519 Keys.new_ed25519_issuer
    JsonMap.store_get JsonMap.store_set Store.mem_store Map.lookup Random.read_random
    Text.trim_space Text.trim_left Text.trim_right Text.trim_slash lib_agent_oauth.Server.audiences
    lib_agent_oauth.Server.add_resources lib_agent_oauth.Server.scopes_or_default Prelude.drop
started = refl

new_server-IsConfigured_example : IsConfigured config built
new_server-IsConfigured_example =
    new_server-IsConfigured mem_store-IsLawful fills config blank (new_server config blank).1 built
      started

abbrev mount : String
mount = "https://auth.example/slack/mcp"

mount_path : resource_suffix built.public_url mount ≢ ""
unfolding resource_suffix Text.trim_prefix Text.strip_prefix
mount_path h = cc

register_routes-found_example :
    (path : String) × (x : String) × (protected_resource_metadata_url built.public_url mount
      ≡ built.public_url ++ path)
    × (contains built.resources x ≡ true)
    × (resource_suffix built.public_url x ≡ resource_suffix built.public_url mount)
    × (Map.lookup path (register_routes built)
        ≡ some (
            resource_document (record {
              resource = x;
              authorization_servers = built.public_url ∷ [];
              scopes_supported = built.scopes;
              bearer_methods_supported = "header" ∷ [];
            })))
register_routes-found_example = register_routes-found built mount refl mount_path

-- The token of alice's client for the mount, minted at second 10.
abbrev mount_claims : Claims
mount_claims = record {
  scope = "mcp";
  principal = "alice";
  binding = ("api_key", "k1") ∷ [];
  issuer = "https://auth.example";
  subject = "c1";
  audience = mount ∷ [];
  issued_at = some 10;
  expires_at = some 3610;
}

-- A library that knows this one token.
abbrev mount_jwt : Jwt
mount_jwt = record {
  numeric_date = λ t. t / 1000000000;
  sign = λ m k c. some "token";
  parse = λ o k now t. if accepts o ed_dsa mount_claims now then some mount_claims else none;
}

abbrev mount_env : Env
mount_env = record test_env { jwt = mount_jwt }

abbrev at_ten : World (Map Stored)
at_ten = record blank { now = 10000000000 }

abbrev verifier : Issuer
verifier = record {
  method = ed_dsa;
  sign_key = none;
  verify_key = public_key key;
  issuer = "https://auth.example";
  audience = mount;
  ttl = 0;
}

reads :
    ReadsBack mount_jwt ed_dsa
      (private_key private)
      (public_key key)
      (claims_of ⦃env = mount_env⦄ built.issuer at_ten.now "c1" "mcp" mount alice)
unfolding claims_of
reads = record { parse-sign = λ o now t some_issuer some_audience h. refl }

minted :
    mint_for ⦃env = mount_env⦄ built.issuer "c1" "mcp" mount alice at_ten ≡ (ok "token", at_ten)
unfolding mint_for
minted = refl

mint_for-validate_example :
    validate ⦃env = mount_env⦄ verifier 20000000000 "token"
    ≡ ok (record { client_id = "c1"; scope = "mcp"; grant = alice; expires_at = 3610 })
mint_for-validate_example =
    mint_for-validate ⦃env = mount_env⦄ built.issuer verifier "c1" "mcp" mount alice
      (private_key private) at_ten at_ten "token" 20000000000 refl refl refl
      (ne_of_test "https://auth.example" "" refl) (ne_of_test mount "" refl) reads minted

-- The delegate that serves the mount.
abbrev delegate : RsConfig
delegate = record {
  issuer_url = "https://auth.example/";
  resource = "https://auth.example/slack/mcp";
  verify_key = key;
}

abbrev delegate_server : ResourceServer
delegate_server = record {
  verifier = verifier;
  prm_url = "https://auth.example/.well-known/oauth-protected-resource/slack/mcp";
}

delegated : new_resource_server delegate ≡ ok delegate_server
unfolding new_resource_server Delegate.has_prefix Delegate.new_ed25519_verifier
    Delegate.protected_resource_metadata_url Delegate.resource_suffix Text.trim_slash
    Text.trim_right Text.trim_prefix Text.strip_prefix
delegated = refl

delegate_reads :
    ReadsEdDsa mount_jwt ed_dsa
      (private_key private)
      key
      (claims_of ⦃env = mount_env⦄ built.issuer at_ten.now "c1" "mcp" mount alice)
unfolding claims_of
delegate_reads = record { parse-sign = λ o now t pinned some_issuer some_audience h. refl }

new_resource_server-checks_example :
    (validate ⦃env = mount_env⦄ verifier 20000000000 "token"
      ≡ ok (record { client_id = "c1"; scope = "mcp"; grant = alice; expires_at = 3610 }))
    × (has_prefix mount "https://auth.example/" ≡ true)
    × (mint_for ⦃env = mount_env⦄ verifier "c1" "mcp" mount alice at_ten
        ≡ (err "oauth: verify-only issuer cannot mint tokens", at_ten))
unfolding Text.trim_slash Text.trim_right
new_resource_server-checks_example =
    new_resource_server-checks ⦃env = mount_env⦄ delegate delegate_server built.issuer "c1" "mcp"
      mount alice (private_key private) at_ten at_ten "token" 20000000000 delegated refl
      delegate_reads minted

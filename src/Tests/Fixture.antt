-- ===== src/Tests/Fixture.antt =====
-- A concrete server, clients, principals and codes for the tests.
use lib_agent_oauth.Prelude.{
  String, Option, none, ◌==◌, if◌then◌else◌, ℕ, zero, suc, ◌/◌, ◌%◌, String, Bool, true, none, some,
  List, [], ◌∷◌,
}
use lib_agent_oauth.Map.{Map}
use lib_agent_oauth.Json.Codec.{encode_map}
use lib_agent_oauth.Http.{Url, Values, Request}
use lib_agent_oauth.Jwt.{Jwt, hs256, hmac_key}
use lib_agent_oauth.Env.{Env, Stored, document, plain}
use lib_agent_oauth.Model.{World, AuthGrant, PrincipalGrant}
use lib_agent_oauth.Store.{mem_store}
use lib_agent_oauth.Refresh.Codec.{RefreshGrant, refresh_codec}
use lib_agent_oauth.Session.{SessionRecord, session_codec}
use lib_agent_oauth.Principal.Codec.{PrincipalRecord, record_codec}
use lib_agent_oauth.Server.{Server}

-- `n` equal bytes.
abbrev pub bytes : ℕ → ℕ → List ℕ
bytes zero b = []
bytes (suc n) b = b ∷ bytes n b

-- Tokens that say who they are for.
abbrev test_jwt : Jwt
test_jwt = record {
  numeric_date = λ t. t / 1000000000;
  sign = λ m k c. some c.subject;
  parse = λ o k now t. none;
}

-- Every URL is one of an application, but the empty text.
abbrev read_url : String → Option Url
read_url s =
    if s == ""
    then none
    else some (record {
      scheme = "https";
      host = "app.example";
      hostname = "app.example";
      rest = s;
      query = [];
    })

-- Reads are numbered up to 256, every text has the same hash, and texts have no capitals.
instance abbrev pub test_env : Env
test_env = record {
  S = Map Stored;
  store = mem_store;
  entropy = λ n k. some (bytes k (n % 256));
  to_lower = λ c. c;
  to_upper = λ c. c;
  sha256 = λ s. 0 ∷ [];
  ed25519_public = λ seed. seed;
  parse_url = read_url;
  jwt = test_jwt;
  json_text = λ j. "";
  parse_json = λ s. none;
}

abbrev pub alice : PrincipalGrant
alice = record { name = "alice"; binding = ("api_key", "k1") ∷ [] }

abbrev pub bob : PrincipalGrant
bob = record { name = "bob"; binding = [] }

abbrev pub challenge : String
challenge = "AA"

abbrev pub code_grant : AuthGrant
code_grant = record {
  client_id = "c1";
  redirect_uri = "https://app.example/cb";
  code_challenge = challenge;
  code_challenge_method = "S256";
  scope = "mcp";
  resource = "https://mcp.example";
  principal = alice;
  expires_at = 100;
}

abbrev pub alice_record : PrincipalRecord
alice_record = record { code = "mcp-AAAAA"; binding = ("api_key", "k1") ∷ [] }

abbrev pub bob_record : PrincipalRecord
bob_record = record { code = "mcp-BBBBB"; binding = [] }

abbrev pub alice_refresh : RefreshGrant
alice_refresh = record {
  client_id = "c1";
  scope = "mcp";
  resource = "https://mcp.example";
  principal = alice;
}

abbrev pub bob_refresh : RefreshGrant
bob_refresh = record {
  client_id = "c2";
  scope = "mcp";
  resource = "https://mcp.example";
  principal = bob;
}

abbrev pub alice_session : SessionRecord
alice_session = record { principal = "alice"; anonymous = Bool.false; expires = 50 }

-- What is stored.
abbrev pub principals : Map PrincipalRecord
principals = ("alice", alice_record) ∷ ("bob", bob_record) ∷ []

abbrev pub tokens : Map RefreshGrant
tokens = ("r1", alice_refresh) ∷ ("r2", bob_refresh) ∷ []

abbrev pub sessions : Map SessionRecord
sessions = ("s1", alice_session) ∷ []

abbrev pub world : World (Map Stored)
world = record {
  store =
      ("principals", document (encode_map record_codec principals))
      ∷ ("refresh-tokens", document (encode_map refresh_codec tokens))
      ∷ ("sessions", document (encode_map session_codec sessions))
      ∷ ("pairing-code", plain "mcp-CCCCC")
      ∷ [];
  codes = ("code1", code_grant) ∷ [];
  drawn = 0;
  now = 10;
  events = [];
}

abbrev pub server : Server
server = record {
  audiences = record { resource = "https://mcp.example"; resources = "https://mcp.example" ∷ [] };
  public_url = "https://auth.example";
  scopes = "mcp" ∷ [];
  issuer = record {
    method = hs256;
    sign_key = some (hmac_key []);
    verify_key = hmac_key [];
    issuer = "https://auth.example";
    audience = "https://mcp.example";
    ttl = 3600000000000;
  };
  enrollment = none;
  enrollment_for_resource = none;
  binding_for_resource = none;
  session_ttl = some 1000;
  observed = true;
}

abbrev pub code_form : Values
code_form =
    ("grant_type", "authorization_code")
    ∷ ("code", "code1")
    ∷ ("client_id", "c1")
    ∷ ("redirect_uri", "https://app.example/cb")
    ∷ ("code_verifier", "v")
    ∷ []

abbrev pub refresh_form : Values
refresh_form = ("grant_type", "refresh_token") ∷ ("refresh_token", "r1") ∷ ("client_id", "c1") ∷ []

abbrev pub post_of : Values → Request
post_of form = record {
  method = "POST";
  query = [];
  form = some form;
  session_cookie = none;
  authorization = "";
}

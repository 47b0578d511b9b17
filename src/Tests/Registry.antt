-- ===== src/Tests/Registry.antt =====
-- Clients and enrollments at concrete inputs.
use lib_agent_oauth.Prelude.{
  ◌==◌, ◌↔◌, if◌then◌else◌, String, ◌≡◌, ◌≢◌, refl, ap, ◌∙◌, Option, none, true, false, some, List,
  [], ◌∷◌,
}
use lib_agent_oauth.Exec.{Result, ok, err}
use lib_agent_oauth.Map
use lib_agent_oauth.Map.{Map}
use lib_agent_oauth.JsonMap
use lib_agent_oauth.JsonMap.Laws
use lib_agent_oauth.Random.Laws.{drawing}
use lib_agent_oauth.Random
use lib_agent_oauth.Encode
use lib_agent_oauth.Store
use lib_agent_oauth.Store.Laws.{mem_store-IsLawful}
use lib_agent_oauth.Clients
use lib_agent_oauth.Clients.{Client}
use lib_agent_oauth.Clients.Laws.{client_of, get-register}
use lib_agent_oauth.Enrollment.{Enrollment, validate, validate_modes, validate_fields}
use lib_agent_oauth.Enrollment.Laws.{IsUsable, validate-IsUsable}
use lib_agent_oauth.Register.{RegisterRequest, valid_redirect_uri, handle_register}
use lib_agent_oauth.Register
use lib_agent_oauth.Register.Laws.{
  Registered, IsSound, handle_register-Registered, handle_register-IsSound,
}
use lib_agent_oauth.Http
use lib_agent_oauth.Text
use lib_agent_oauth.Token.{Verified}
use lib_agent_oauth.Protect.{protect_handler, bearer_token, equal_fold, served}
use lib_agent_oauth.Protect.Laws.{HasBearer, protect_handler_iff}
use lib_agent_oauth.Tests.Fixture.{alice, test_env, world, server}

abbrev method : String
method = "POST"

abbrev uris : List String
uris = "https://app.example/cb" ∷ []

abbrev request : RegisterRequest
request = record { redirect_uris = uris; client_name = "app" }

abbrev app : Client
app = record { id = "AAAAAAAAAAAAAAAAAAAAAA"; redirect_uris = uris; name = "app" }

registered : Clients.register uris "app" world ≡ (ok app, (Clients.register uris "app" world).1)
unfolding Clients.register Random.rand_token Random.read_random JsonMap.mutate JsonMap.load
    JsonMap.store_get Store.mem_store JsonMap.read_map Map.lookup JsonMap.commit JsonMap.save
    JsonMap.store_set Encode.encode64
registered = refl

created : (handle_register server "POST" (some request) world).0.status ≡ 201
unfolding handle_register Register.register_body Register.all_valid Register.valid_redirect_uri
    Register.valid_url Register.register_client Clients.register Random.rand_token
    Random.read_random JsonMap.mutate JsonMap.load JsonMap.store_get Store.mem_store
    JsonMap.read_map Map.lookup JsonMap.commit JsonMap.save JsonMap.store_set
created = refl

none_some : {c : Client} → ◌≢◌ {A = Option Client} none (some c)
none_some h = cc

world-Clients : Clients.Laws.Clients world []
unfolding JsonMap.Laws.reads Store.mem_store JsonMap.read_map Map.lookup
world-Clients = refl

sound : IsSound world
unfolding IsSound Map.lookup
sound m id c uri held found has =
    absurd
      (none_some {c = c} (ap (Map.lookup id) (JsonMap.Laws.same_map world-Clients held) ∙ found))

get-register_example :
    (app ≡ client_of uris "app" app.id)
    × (Clients.get app.id (Clients.register uris "app" world).1
        ≡ (ok (some app), (Clients.register uris "app" world).1))
    × ((m m' : Map Client) × Clients.Laws.Clients (drawing world) m
        × Clients.Laws.Clients (Clients.register uris "app" world).1 m'
        × (Map.lookup app.id m' ≡ some app)
        × ((other : String) → app.id ≢ other → Map.lookup other m' ≡ Map.lookup other m))
get-register_example =
    get-register mem_store-IsLawful uris "app" world (Clients.register uris "app" world).1
      registered

handle_register-Registered_example :
    let (rep, w') = handle_register server "POST" (some request) world in
    (method ≡ "POST") × Registered request world rep w'
handle_register-Registered_example =
    handle_register-Registered mem_store-IsLawful server "POST" request world
      (handle_register server "POST" (some request) world).1
      (handle_register server "POST" (some request) world).0 refl created

handle_register-IsSound_example : IsSound (handle_register server "POST" (some request) world).1
handle_register-IsSound_example =
    handle_register-IsSound mem_store-IsLawful server "POST" request world
      (handle_register server "POST" (some request) world).1
      (handle_register server "POST" (some request) world).0 sound refl created

abbrev enrollment : Enrollment
enrollment = record {
  descriptor = record {
    title = "Connect";
    intro = "";
    modes =
        record {
          key = "token";
          label = "Token";
          fields =
              record {
                key = "api_key";
                label = "Key";
                help = "";
                snippet = "";
                secret = true;
                optional = false;
              }
              ∷ [];
        }
        ∷ [];
  };
  enroll = λ r. ok (record { binding = r.values; choice = none });
}

usable : validate enrollment ≡ ok tt
unfolding validate validate_modes validate_fields
usable = refl

validate-IsUsable_example : IsUsable enrollment
validate-IsUsable_example = validate-IsUsable enrollment usable

abbrev verified : Verified
verified = record { client_id = "c1"; scope = "mcp"; grant = alice; expires_at = 100 }

abbrev accept_x : String → Result Verified
accept_x t = if t == "x" then ok verified else err "bad"

abbrev call : Http.Request
call = record {
  method = "POST";
  query = [];
  form = none;
  session_cookie = none;
  authorization = "bearer  x";
}

protect_handler_iff_example :
    (protect_handler accept_x "u" call ≡ served verified)
    ↔ ((token : String) × HasBearer call token × (accept_x token ≡ ok verified))
protect_handler_iff_example = protect_handler_iff accept_x "u" call verified

call_served : protect_handler accept_x "u" call ≡ served verified
unfolding protect_handler bearer_token equal_fold Text.trim_space Text.trim_left Text.trim_right
    Text.take Text.drop
call_served = refl

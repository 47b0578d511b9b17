-- ===== src/System/Unavailable.antt =====
-- store.go: a server whose keyring is not available.
use lib_agent_oauth.Prelude.{String, ◌≡◌, refl, false, arith}
use lib_agent_oauth.Exec.{Result, err}
use lib_agent_oauth.Env.{Env}
use lib_agent_oauth.Model.{World}
use lib_agent_oauth.Http.{Values}
use lib_agent_oauth.Store.{Keyring, keyring_store, err_store_unavailable}
use lib_agent_oauth.JsonMap
use lib_agent_oauth.JsonMap.{Change, store_get, load, mutate}
use lib_agent_oauth.Pairing.{shared_code}
use lib_agent_oauth.Keys.{load_or_create_hmac_key, load_or_create_ed25519}
use lib_agent_oauth.Clients
use lib_agent_oauth.Clients.{Client}
use lib_agent_oauth.Refresh
use lib_agent_oauth.Session
use lib_agent_oauth.Session.{SessionRecord}
use lib_agent_oauth.Principal.{grant_for, remove_principal}
use lib_agent_oauth.Principal.Verify.{candidates, verify_principal}
use lib_agent_oauth.Server.{Server}
use lib_agent_oauth.Grant.{server_error, grant_refresh}

-- The environment with a keyring for its secret store.
abbrev pub on_keyring : {K : Type 0} → Keyring K → Env → Env
on_keyring {K} kr env = record {
  S = K;
  store = keyring_store kr;
  entropy = env.entropy;
  to_lower = env.to_lower;
  to_upper = env.to_upper;
  sha256 = env.sha256;
  ed25519_public = env.ed25519_public;
  parse_url = env.parse_url;
  jwt = env.jwt;
  json_text = env.json_text;
  parse_json = env.parse_json;
}

module _ ⦃env : Env⦄ where
  abbrev refused : {A : Type 0} → World env.S → Result A × World env.S
  refused w = (err err_store_unavailable, w)

  -- Each operation that looks something up is refused, and changes nothing.
  pub record Refuses (s : Server) (w : World env.S) : Type 0 where
    pub code : shared_code w ≡ refused w
    pub hmac_key : load_or_create_hmac_key w ≡ refused w
    pub ed25519 : load_or_create_ed25519 w ≡ refused w
    pub client : (id : String) → Clients.get id w ≡ refused w
    pub exchange : (token : String) → Refresh.exchange token w ≡ refused w
    pub session : (token : String) → Session.lookup token w ≡ refused w
    pub verify : (input : String) → verify_principal input w ≡ refused w
    pub grant : (name : String) → grant_for name w ≡ refused w
    pub remove : (name : String) → remove_principal name w ≡ refused w
    pub refresh :
        (form : Values) → grant_refresh s form w ≡ (server_error "could not read refresh token", w)

  store_get-refused :
      (w : World env.S) (k : String)
      → env.store.get w.store k ≡ err err_store_unavailable
      → store_get k w ≡ refused w
  unfolding store_get
  store_get-refused w k h = rw h refl

  all_refused :
      (s : Server) (w : World env.S)
      → ((k : String) → env.store.get w.store k ≡ err err_store_unavailable)
      → Refuses s w
  unfolding shared_code load_or_create_hmac_key load_or_create_ed25519 Clients.get Refresh.exchange
      Session.lookup verify_principal candidates grant_for remove_principal grant_refresh
      JsonMap.get load mutate
  all_refused s w h = record {
    code = rw (store_get-refused w _ (h _)) refl;
    hmac_key = rw (store_get-refused w _ (h _)) refl;
    ed25519 = rw (store_get-refused w _ (h _)) refl;
    client = λ id. rw (store_get-refused w _ (h _)) refl;
    exchange = λ token. rw (store_get-refused w _ (h _)) refl;
    session = λ token. rw (store_get-refused w _ (h _)) refl;
    verify = λ input. rw (store_get-refused w _ (h _)) refl;
    grant = λ name. rw (store_get-refused w _ (h _)) refl;
    remove = λ name. rw (store_get-refused w _ (h _)) refl;
    refresh = λ form. rw (store_get-refused w _ (h _)) refl;
  }

unavailable-get :
    {K : Type 0} (kr : Keyring K) (k : K) (key : String)
    → kr.available k ≡ false
    → (keyring_store kr).get k key ≡ err err_store_unavailable
unfolding keyring_store
unavailable-get kr k key h = ground arith

-- Over a keyring that is not available, the shared code, the signing keys, the clients, the refresh
-- tokens, the sessions and the principals are all refused with the one error, a refresh is answered
-- with a server error, and nothing is changed.
pub keyring_store-Refuses :
    {K : Type 0} (kr : Keyring K) (env : Env) (s : Server) (w : World K)
    → kr.available w.store ≡ false
    → Refuses ⦃env = on_keyring kr env⦄ s w
keyring_store-Refuses kr env s w h =
    all_refused ⦃env = on_keyring kr env⦄ s w (λ key. unavailable-get kr w.store key h)

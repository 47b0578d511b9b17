-- ===== src/Clients.antt =====
-- clients.go: dynamically registered clients, in one stored map.
pub mod Laws
use lib_agent_oauth.Prelude.{String, ◌≡◌, refl, Bool, Option, some, List, ap, contains}
use lib_agent_oauth.Map
use lib_agent_oauth.Map.{Map}
use lib_agent_oauth.Json.{Json, text, arr, obj, done, member, field}
use lib_agent_oauth.Json.Codec.{
  Codec, members, as_text, put_text, encode_texts, as_texts, as_texts-encode, as_text-put_text,
  ◌>>=◌ as bind_option,
}
use lib_agent_oauth.Exec.{◌>>=◌, ◌>>◌, pure}
use lib_agent_oauth.Env.{Env}
use lib_agent_oauth.Model.{M}
use lib_agent_oauth.JsonMap
use lib_agent_oauth.JsonMap.{Change, mutate}
use lib_agent_oauth.Random.{rand_token}

abbrev pub clients_store_key : String
clients_store_key = "clients"

pub record Client : Type 0 where
  pub id : String
  pub redirect_uris : List String
  pub name : String

-- allowsRedirect
unfoldable pub allows_redirect : Client → String → Bool
allows_redirect c uri = contains c.redirect_uris uri

unfoldable pub encode_client : Client → Json
encode_client c = obj (
    member "client_id" (text c.id) (
      member "redirect_uris" (arr (encode_texts c.redirect_uris))
        (put_text "client_name" c.name done)))

unfoldable pub decode_client : Json → Option Client
decode_client j = bind_option (members j) λ m. bind_option (as_text (field "client_id" m)) λ id.
    bind_option (as_texts (field "redirect_uris" m)) λ uris.
      bind_option (as_text (field "client_name" m))
        λ name. some (record { id = id; redirect_uris = uris; name = name })

pub decode_client-encode : (c : Client) → decode_client (encode_client c) ≡ some c
unfolding decode_client encode_client
decode_client-encode c =
    rw (as_texts-encode c.redirect_uris) (rw (as_text-put_text "client_name" c.name done refl))

abbrev pub client_codec : Codec Client
client_codec = record {
  encode = encode_client;
  decode = decode_client;
  decode-encode = decode_client-encode;
}

module _ ⦃env : Env⦄ where
  -- `m[id] = c; return true`
  abbrev pub put_client : Client → Map Client → Change (Unit {0}) Client
  put_client c m = (tt, some (Map.insert c.id c m))

  unfoldable pub register : List String → String → M Client
  register redirect_uris name = do
    id ← rand_token 16
    mutate client_codec clients_store_key
        (put_client (record { id = id; redirect_uris = redirect_uris; name = name }))
    pure (record { id = id; redirect_uris = redirect_uris; name = name })

  -- `(*clientRegistry).Get`
  unfoldable pub get : String → M (Option Client)
  get id = JsonMap.get client_codec clients_store_key id

-- ===== src/Env.antt =====
-- What the program takes from outside the repository.
use lib_agent_oauth.Prelude.{ℕ, String, Option, List, Char}
use lib_agent_oauth.Json.{Json}
use lib_agent_oauth.Http.{Url}
use lib_agent_oauth.Jwt.{Jwt}
use lib_agent_oauth.Exec.{Result}

-- What a SecretStore holds under a key: a plain text, or a JSON document that `json.Marshal`
-- printed.
pub data Stored : Type 0 where
  plain : String → Stored
  document : Json → Stored

-- store.go's interface `SecretStore`, over the state `S` of its backend.
pub record SecretStore (S : Type 0) : Type 0 where
  pub get : S → String → Result (Option Stored)
  pub set : S → String → Stored → Result (Unit {0}) × S
  pub delete : S → String → Result (Unit {0}) × S

pub record Env : Type 1 where
  -- The backend of the secret store.
  pub S : Type 0
  pub store : SecretStore S
  -- `rand.Read`: the bytes of the n-th read of a length, or an error.
  pub entropy : ℕ → ℕ → Option (List ℕ)
  -- `unicode.ToLower` and `unicode.ToUpper`, which `strings` maps over a text.
  pub to_lower : Char → Char
  pub to_upper : Char → Char
  -- `sha256.Sum256`, on the bytes of a text.
  pub sha256 : String → List ℕ
  -- The public key that `ed25519.NewKeyFromSeed` makes of a seed.
  pub ed25519_public : List ℕ → List ℕ
  -- `url.Parse`
  pub parse_url : String → Option Url
  -- golang-jwt
  pub jwt : Jwt
  -- The text of a document, and what `json.Unmarshal` makes of a text.
  pub json_text : Json → String
  pub parse_json : String → Option Json

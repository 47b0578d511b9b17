-- ===== src/Jwt.antt =====
-- The calls of golang-jwt, which the repository does not hold: its data, its operations as a
-- record, and the documented behaviour that the theorems on tokens name.
use lib_agent_oauth.Prelude.{ℕ, String, Bool, Option, List}
use lib_agent_oauth.Map.{Map}

-- `jwt.SigningMethodHS256` and `jwt.SigningMethodEdDSA`
pub data Method : Type 0 where
  hs256 ed_dsa : Method

-- The Go types that a key can have.
pub data Key : Type 0 where
  hmac_key private_key public_key : List ℕ → Key

-- token.go's `tokenClaims`. Dates are NumericDates.
pub record Claims : Type 0 where
  pub scope : String
  pub principal : String
  pub binding : Map String
  pub issuer : String
  pub subject : String
  pub audience : List String
  pub issued_at : Option ℕ
  pub expires_at : Option ℕ

-- The parser options that token.go sets.
pub record ParserOptions : Type 0 where
  pub valid_method : Method
  pub issuer : String
  pub audience : String
  pub expiration_required : Bool

pub record Jwt : Type 0 where
  -- `jwt.NewNumericDate`
  pub numeric_date : ℕ → ℕ
  -- `jwt.NewWithClaims(method, claims).SignedString(key)`
  pub sign : Method → Key → Claims → Option String
  -- `jwt.ParseWithClaims` at a time, with the key that the key function returns
  pub parse : ParserOptions → Key → ℕ → String → Option Claims

-- ===== src/Keys.antt =====
-- token.go: the signing keys, which are made at the first use and kept in the secret store, and the
-- issuers that have them.
pub mod Laws
use lib_agent_oauth.Prelude.{
  ℕ, String, Bool, true, false, not, Option, none, some, List, ◌++◌, length, take, drop, ltb, eqb,
  if◌then◌else◌,
}
use lib_agent_oauth.Exec.{Result, ok, err, ◌>>=◌, ◌>>◌, pure, lift}
use lib_agent_oauth.Env.{Env, Stored, plain}
use lib_agent_oauth.Model.{M}
use lib_agent_oauth.JsonMap.{store_get, store_set}
use lib_agent_oauth.Pairing.{content}
use lib_agent_oauth.Random.{read_random}
use lib_agent_oauth.Encode.{encode64}
use lib_agent_oauth.Decode.{decode64}
use lib_agent_oauth.Jwt.{Method, hs256, ed_dsa, Key, hmac_key, private_key, public_key}
use lib_agent_oauth.Token.{Issuer}

abbrev pub signing_key_store_key : String
signing_key_store_key = "signing-key"

abbrev pub ed25519_seed_store_key : String
ed25519_seed_store_key = "ed25519-seed"

abbrev pub signing_key_bytes : ℕ
signing_key_bytes = 32

-- A key that was decoded, and its check.
abbrev pub checked : {K : Type 0} → (List ℕ → Result K) → Option (List ℕ) → Result K
checked check none = err "oauth: decoding stored key"
checked check (some b) = check b

-- The check of a stored HMAC key.
abbrev pub check_hmac : List ℕ → Result (List ℕ)
check_hmac key =
    if ltb (length key) signing_key_bytes
    then err "oauth: stored signing key is too short — refusing to sign with a weak key"
    else ok key

module _ ⦃env : Env⦄ where
  -- `ed25519.NewKeyFromSeed`: a private key is the seed and the public key. The last 32 bytes are
  -- `priv.Public()`, the first ones `priv.Seed()`.
  abbrev pub new_key_from_seed : List ℕ → List ℕ
  new_key_from_seed seed = seed ++ env.ed25519_public seed

  -- The check of a stored seed.
  abbrev pub check_seed : List ℕ → Result (List ℕ)
  check_seed seed =
      if not (eqb (length seed) 32)
      then err "oauth: stored Ed25519 seed has the wrong size — refusing a malformed key"
      else ok (new_key_from_seed seed)

  -- What is stored is checked, or else a key is made.
  abbrev pub stored_or : (List ℕ → Result (List ℕ)) → M (List ℕ) → Option Stored → M (List ℕ)
  stored_or check create none = create
  stored_or check create (some v) = lift (checked check (decode64 (content v)))

  abbrev pub create_hmac_key : M (List ℕ)
  create_hmac_key = do
    key ← read_random signing_key_bytes
    store_set signing_key_store_key (plain (encode64 key))
    pure key

  -- loadOrCreateHMACKey
  unfoldable pub load_or_create_hmac_key : M (List ℕ)
  load_or_create_hmac_key = do
    v ← store_get signing_key_store_key
    stored_or check_hmac create_hmac_key v

  -- `ed25519.GenerateKey(rand.Reader)` reads a seed.
  abbrev pub create_ed25519 : M (List ℕ)
  create_ed25519 = do
    seed ← read_random 32
    store_set ed25519_seed_store_key (plain (encode64 (take 32 (new_key_from_seed seed))))
    pure (new_key_from_seed seed)

  -- loadOrCreateEd25519
  unfoldable pub load_or_create_ed25519 : M (List ℕ)
  load_or_create_ed25519 = do
    v ← store_get ed25519_seed_store_key
    stored_or check_seed create_ed25519 v

  -- NewIssuer
  unfoldable pub new_issuer : String → String → ℕ → M Issuer
  new_issuer issuer audience ttl = do
    key ← load_or_create_hmac_key
    pure (record {
      method = hs256;
      sign_key = some (hmac_key key);
      verify_key = hmac_key key;
      issuer = issuer;
      audience = audience;
      ttl = ttl;
    })

  -- NewEd25519Issuer
  unfoldable pub new_ed25519_issuer : String → String → ℕ → M Issuer
  new_ed25519_issuer issuer audience ttl = do
    priv ← load_or_create_ed25519
    pure (record {
      method = ed_dsa;
      sign_key = some (private_key priv);
      verify_key = public_key (drop 32 priv);
      issuer = issuer;
      audience = audience;
      ttl = ttl;
    })

-- ===== src/Pairing.antt =====
-- pairing.go: the shared pairing code, how codes are made, and how an entered code is compared.
pub mod Laws
use Prim.Native.String.{◌++◌, [], ◌∷◌}
use lib_agent_oauth.Prelude.{
  ℕ, Char, String, Bool, ◌||◌, Option, none, some, List, ◌==◌, code, eqb, if◌then◌else◌,
}
use lib_agent_oauth.Prelude
use lib_agent_oauth.Text.{trim_space, map_chars, drop_chars, trim_prefix, take, is_char}
use lib_agent_oauth.Encode.{encode32}
use lib_agent_oauth.Exec.{◌>>=◌, ◌>>◌, pure}
use lib_agent_oauth.Env.{Env, Stored, plain, document}
use lib_agent_oauth.Model.{M}
use lib_agent_oauth.JsonMap.{store_get, store_set}
use lib_agent_oauth.Random.{read_random}

abbrev pub pairing_code_store_key : String
pairing_code_store_key = "pairing-code"

abbrev pub pairing_prefix : String
pairing_prefix = "mcp-"

-- The loop that cuts a text into groups of five characters; the text of a pairing code has 25.
unfoldable pub groups : String → List String
groups (a ∷ b ∷ c ∷ d ∷ e ∷ s) = Prelude.◌∷◌ (a ∷ b ∷ c ∷ d ∷ e ∷ "") (groups s)
groups _ = Prelude.[]

-- `strings.Join(groups, "-")`
unfoldable pub join : List String → String
join Prelude.[] = ""
join (Prelude.◌∷◌ g Prelude.[]) = g
join (Prelude.◌∷◌ g (Prelude.◌∷◌ h rest)) = g ++ ("-" ++ join (Prelude.◌∷◌ h rest))

-- The characters that a Replacer deletes and folds.
abbrev pub is_separator : Char → Bool
is_separator c = is_char b'-' c || is_char b' ' c

abbrev pub fold_confusable : Char → Char
fold_confusable c =
    if is_char b'o' c
    then "0"
    else if is_char b'i' c
    then "1"
    else if is_char b'l' c
    then "1"
    else c

module _ ⦃env : Env⦄ where
  unfoldable pub generate_pairing_code : M String
  generate_pairing_code = do
    b ← read_random 16
    pure (pairing_prefix ++ join (groups (take 25 (encode32 b))))

  unfoldable pub rotate : M String
  rotate = do
    fresh ← generate_pairing_code
    store_set pairing_code_store_key (plain fresh)
    pure fresh

  -- The text of a stored value.
  abbrev pub content : Stored → String
  content (plain s) = s
  content (document j) = env.json_text j

  abbrev pub stored_code : Option Stored → M String
  stored_code none = rotate
  stored_code (some v) = pure (content v)

  -- `(*Pairing).Code`
  unfoldable pub shared_code : M String
  shared_code = do v ← store_get pairing_code_store_key; stored_code v

  -- normalizePairing
  unfoldable pub normalize_pairing : String → String
  normalize_pairing s =
      let lowered = map_chars env.to_lower (trim_space s) in
      let stripped = trim_prefix (drop_chars is_separator lowered) "mcp" in
      map_chars env.to_upper (map_chars fold_confusable stripped)

  -- constantTimeEqualPairing
  unfoldable pub equal_pairing : String → String → Bool
  equal_pairing normalized_input stored = normalized_input == normalize_pairing stored

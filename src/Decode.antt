-- ===== src/Decode.antt =====
-- `base64.RawURLEncoding.DecodeString`: line breaks are passed over, the last block may have two or
-- three digits, and the bits that it has too many are not looked at.
pub mod Laws
use Prim.Native.String.{[], ◌∷◌}
use lib_agent_oauth.Prelude.{
  ℕ, zero, suc, ◌+◌, ◌*◌, ◌/◌, ◌%◌, Char, String, Bool, ◌||◌, Option, none, some, List, code, eqb,
  if◌then◌else◌,
}
use lib_agent_oauth.Prelude
use lib_agent_oauth.Text.{drop_chars, is_char}
use lib_agent_oauth.Encode.{base64_url}

-- The place of a character in an alphabet, from `n` on.
unfoldable pub place : String → Char → ℕ → Option ℕ
place [] c n = none
place (d ∷ s) c n = let rest = place s c (suc n) in if eqb (code d) (code c) then some n else rest

abbrev pub value64 : Char → Option ℕ
value64 c = place base64_url c 0

-- The bytes of a block of two, three or four digits, before those of the others.
abbrev pub two : Option ℕ → Option ℕ → Option (List ℕ)
two (some a) (some b) = some (Prelude.◌∷◌ (a * 4 + b / 16) Prelude.[])
two _ _ = none

abbrev pub three : Option ℕ → Option ℕ → Option ℕ → Option (List ℕ)
three (some a) (some b) (some c) =
    some (Prelude.◌∷◌ (a * 4 + b / 16) (Prelude.◌∷◌ (b % 16 * 16 + c / 4) Prelude.[]))
three _ _ _ = none

abbrev pub four : Option ℕ → Option ℕ → Option ℕ → Option ℕ → Option (List ℕ) → Option (List ℕ)
four (some a) (some b) (some c) (some d) (some rest) = some (
    Prelude.◌∷◌ (a * 4 + b / 16)
      (Prelude.◌∷◌ (b % 16 * 16 + c / 4) (Prelude.◌∷◌ (c % 4 * 64 + d) rest)))
four _ _ _ _ _ = none

unfoldable pub decode_digits : String → Option (List ℕ)
decode_digits [] = some Prelude.[]
decode_digits (a ∷ []) = none
decode_digits (a ∷ b ∷ []) = two (value64 a) (value64 b)
decode_digits (a ∷ b ∷ c ∷ []) = three (value64 a) (value64 b) (value64 c)
decode_digits (a ∷ b ∷ c ∷ d ∷ rest) =
    four (value64 a) (value64 b) (value64 c) (value64 d) (decode_digits rest)

abbrev pub is_line_break : Char → Bool
is_line_break c = eqb (code c) 10 || eqb (code c) 13

unfoldable pub decode64 : String → Option (List ℕ)
decode64 s = decode_digits (drop_chars is_line_break s)

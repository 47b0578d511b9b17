-- ===== src/Text.antt =====
-- The functions of Go's `strings` that the program calls, on the characters of a text (the program
-- hands them valid UTF-8).
pub mod Laws
use Prim.Native.String.{[], ◌∷◌}
use lib_agent_oauth.Prelude.{
  ℕ, zero, suc, Char, code, String, Bool, true, false, ◌&&◌, ◌||◌, ◌==◌, leb, eqb, if◌then◌else◌,
}

-- `unicode.IsSpace`
is_space : Char → Bool
is_space ch =
    let c = code ch in
    (leb 9 c && leb c 13)
    || eqb c 32
    || eqb c 0x85
    || eqb c 0xa0
    || eqb c 0x1680
    || (leb 0x2000 c && leb c 0x200a)
    || eqb c 0x2028
    || eqb c 0x2029
    || eqb c 0x202f
    || eqb c 0x205f
    || eqb c 0x3000

abbrev pub is_char : ℕ → Char → Bool
is_char n c = eqb (code c) n

-- `s == ""`
abbrev pub is_nil : String → Bool
is_nil [] = true
is_nil (_ ∷ _) = false

-- `strings.TrimLeftFunc` and `strings.TrimRightFunc`
unfoldable pub trim_left : (Char → Bool) → String → String
trim_left p [] = ""
trim_left p (c ∷ s) = let rest = trim_left p s in if p c then rest else c ∷ s

unfoldable pub trim_right : (Char → Bool) → String → String
trim_right p [] = ""
trim_right p (c ∷ s) = let rest = trim_right p s in if is_nil rest && p c then "" else c ∷ rest

-- `strings.TrimSpace`
unfoldable pub trim_space : String → String
unfolding trim_left trim_right is_space
trim_space s = trim_right is_space (trim_left is_space s)

-- `strings.TrimRight(s, "/")`
unfoldable pub trim_slash : String → String
unfolding trim_right
trim_slash s = trim_right (is_char b'/') s

-- `strings.Map`
unfoldable pub map_chars : (Char → Char) → String → String
map_chars f [] = ""
map_chars f (c ∷ s) = f c ∷ map_chars f s

-- A Replacer that deletes characters.
unfoldable pub drop_chars : (Char → Bool) → String → String
drop_chars p [] = ""
drop_chars p (c ∷ s) = let rest = drop_chars p s in if p c then rest else c ∷ rest

-- `strings.TrimPrefix`
unfoldable pub strip_prefix : String → String → String → String
strip_prefix [] s whole = s
strip_prefix (c ∷ p) [] whole = whole
strip_prefix (c ∷ p) (d ∷ s) whole =
    let rest = strip_prefix p s whole in if eqb (code c) (code d) then rest else whole

unfoldable pub trim_prefix : String → String → String
unfolding strip_prefix
trim_prefix s p = strip_prefix p s s

-- `s[:n]` and `s[n:]`, on texts of ASCII characters.
unfoldable pub take : ℕ → String → String
take zero s = ""
take (suc n) [] = ""
take (suc n) (c ∷ s) = c ∷ take n s

unfoldable pub drop : ℕ → String → String
drop zero s = s
drop (suc n) [] = ""
drop (suc n) (c ∷ s) = drop n s

-- The number of characters.
abbrev pub count : String → ℕ
count [] = 0
count (c ∷ s) = suc (count s)

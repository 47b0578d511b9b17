-- ===== src/Decode/Laws.antt =====
-- Laws of the base64 decoding.
use Prim.Native.String.{◌∷◌}
use lib_agent_oauth.Prelude.{
  ℕ, zero, suc, ◌+◌, ◌*◌, ◌/◌, ◌%◌, ◌<◌, ◌≤◌, Char, String, ◌≡◌, ◌≢◌, refl, sym, ap, subst, ◌∙◌,
  ◌⊎◌, inl, inr, Bool, true, false, Bool-cases, not, ◌&&◌, ◌||◌, Option, none, some, List, code,
  eqb, if◌then◌else◌, arith,
}
use lib_agent_oauth.Prelude
use lib_agent_oauth.Text.{drop_chars}
use lib_agent_oauth.Encode.{base64_url, digit, d64, encode64}
use lib_agent_oauth.Decode.{place, value64, decode_digits, is_line_break, decode64}

-- Bytes.
abbrev pub AreBytes : List ℕ → Type 0
AreBytes Prelude.[] = Unit
AreBytes (Prelude.◌∷◌ b l) = (b < 256) × AreBytes l

abbrev is_value : Option ℕ → ℕ → Bool
is_value none n = false
is_value (some m) n = eqb m n

is_value-eq : (o : Option ℕ) (n : ℕ) → is_value o n ≡ true → o ≡ some n
is_value-eq none n h = cc
is_value-eq (some m) n h = ap some (ground arith)

-- The digit of a number below 64 stands for it, and breaks no line.
abbrev test_digit : ℕ → Bool
test_digit n = is_value (value64 (digit base64_url n)) n && not (is_line_break (digit base64_url n))

test_below : ℕ → Bool
test_below zero = true
test_below (suc n) = let rest = test_below n in test_digit n && rest

tested : test_below 64 ≡ true
unfolding test_below digit place
tested = refl

and_left : (a b : Bool) → (a && b) ≡ true → a ≡ true
and_left a b h = ground arith

and_right : (a b : Bool) → (a && b) ≡ true → b ≡ true
and_right a b h = ground arith

below : (m n : ℕ) → test_below m ≡ true → n < m → test_digit n ≡ true
unfolding test_below
below zero n h l = absurd (omega arith)
below (suc m) n h l = elim (Bool-cases (eqb n m)) [
  | inl e ↦
      let same : n ≡ m = ground arith in
      subst (λ x. test_digit x ≡ true) (sym same) (and_left (test_digit m) (test_below m) h)
  | inr e ↦ below m n (and_right (test_digit m) (test_below m) h) (ground arith)
]

value-d64 : (n : ℕ) → value64 (d64 n) ≡ some (n % 64)
value-d64 n = is_value-eq (value64 (d64 n)) (n % 64) (
    and_left (is_value (value64 (d64 n)) (n % 64)) (not (is_line_break (d64 n)))
      (below 64 (n % 64) tested (omega arith)))

d64-unbroken : (n : ℕ) → is_line_break (d64 n) ≡ false
d64-unbroken n = flip (is_line_break (d64 n)) (
    and_right (is_value (value64 (d64 n)) (n % 64)) (not (is_line_break (d64 n)))
      (below 64 (n % 64) tested (omega arith)))
  where
    flip : (b : Bool) → not b ≡ true → b ≡ false
    flip b h = ground arith

-- A text that begins with a digit keeps it.
drop-digit :
    (n : ℕ) (s : String) → drop_chars is_line_break (d64 n ∷ s) ≡ d64 n ∷ drop_chars is_line_break s
unfolding drop_chars
drop-digit n s = rw (d64-unbroken n) refl

unbroken : (b : List ℕ) → drop_chars is_line_break (encode64 b) ≡ encode64 b
unfolding encode64 drop_chars
unbroken Prelude.[] = refl
unbroken (Prelude.◌∷◌ a Prelude.[]) = rw (d64-unbroken (a / 4), d64-unbroken (a * 16)) refl
unbroken (Prelude.◌∷◌ a (Prelude.◌∷◌ b Prelude.[])) =
    rw (d64-unbroken (a / 4), d64-unbroken (a * 16 + b / 16), d64-unbroken (b * 4)) refl
unbroken (Prelude.◌∷◌ a (Prelude.◌∷◌ b (Prelude.◌∷◌ c rest))) =
    rw
      (
        d64-unbroken (a / 4),
        d64-unbroken (a * 16 + b / 16),
        d64-unbroken (b * 4 + c / 64),
        d64-unbroken c,
      )
      (rw (unbroken rest) refl)

cons_eq : {a b : ℕ} {l m : List ℕ} → a ≡ b → l ≡ m → Prelude.◌∷◌ a l ≡ Prelude.◌∷◌ b m
cons_eq p q = rw (p, q) refl

decode_digits-encode64 : (l : List ℕ) → AreBytes l → decode_digits (encode64 l) ≡ some l
unfolding encode64 decode_digits
decode_digits-encode64 Prelude.[] h = refl
decode_digits-encode64 (Prelude.◌∷◌ a Prelude.[]) (p, h) =
    rw (value-d64 (a / 4), value-d64 (a * 16)) (ap some (cons_eq (omega arith) refl))
decode_digits-encode64 (Prelude.◌∷◌ a (Prelude.◌∷◌ b Prelude.[])) (p, (q, h)) =
    rw (value-d64 (a / 4), value-d64 (a * 16 + b / 16), value-d64 (b * 4))
      (ap some (cons_eq (omega arith) (cons_eq (omega arith) refl)))
decode_digits-encode64 (Prelude.◌∷◌ a (Prelude.◌∷◌ b (Prelude.◌∷◌ c rest))) (p, (q, (r, h))) =
    rw (value-d64 (a / 4), value-d64 (a * 16 + b / 16), value-d64 (b * 4 + c / 64), value-d64 c)
      (rw (decode_digits-encode64 rest h)
        (ap some (cons_eq (omega arith) (cons_eq (omega arith) (cons_eq (omega arith) refl)))))

-- Bytes that are encoded are decoded as they were.
pub decode64-encode64 : (l : List ℕ) → AreBytes l → decode64 (encode64 l) ≡ some l
unfolding decode64
decode64-encode64 l h = ap decode_digits (unbroken l) ∙ decode_digits-encode64 l h

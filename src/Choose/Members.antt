-- ===== src/Choose/Members.antt =====
-- Laws of choose_page.go: bindingSet.
use Prim.Native.String as Chars
use lib_agent_oauth.Prelude.{
  Char, String, ◌≡◌, refl, subst, inl, inr, Bool, true, false, Bool-cases, ◌&&◌, List, [], ◌∷◌,
  ◌==◌, eq_of_test, contains,
}
use lib_agent_oauth.Text.{trim_space, trim_left, trim_right, is_nil}
use lib_agent_oauth.Choose.{is_separator, has_separator, extend, split, members_of, binding_set}

-- Every text of a list is without a separator.
abbrev NoSeparators : List String → Type 0
NoSeparators [] = Unit
NoSeparators (s ∷ l) = (has_separator s ≡ false) × NoSeparators l

extend-NoSeparators :
    (c : Char) (l : List String)
    → is_separator c ≡ false
    → NoSeparators l
    → NoSeparators (extend c l)
unfolding has_separator
extend-NoSeparators c [] e h = (rw e refl, tt)
extend-NoSeparators c (s ∷ l) e h = (rw e h.0, h.1)

split-NoSeparators : (s : String) → NoSeparators (split s)
unfolding split has_separator
split-NoSeparators Chars.[] = (refl, tt)
split-NoSeparators (Chars.◌∷◌ c s) = elim (Bool-cases (is_separator c)) [
  | inl e ↦ rw e (refl, split-NoSeparators s)
  | inr e ↦ rw e (extend-NoSeparators c (split s) e (split-NoSeparators s))
]

tail-free :
    (c : Char) (s : String)
    → has_separator (Chars.◌∷◌ c s) ≡ false
    → (is_separator c ≡ false) × (has_separator s ≡ false)
unfolding has_separator
tail-free c s h = elim (Bool-cases (is_separator c)) [
  | inl e ↦ cc (rw e at h)
  | inr e ↦ (e, rw e at h)
]

-- Trimming brings no separator in.
trim_left-free :
    (p : Char → Bool) (s : String) → has_separator s ≡ false → has_separator (trim_left p s) ≡ false
unfolding trim_left
trim_left-free p Chars.[] h = h
trim_left-free p (Chars.◌∷◌ c s) h = elim (Bool-cases (p c)) [
  | inl e ↦ rw e (trim_left-free p s (tail-free c s h).1)
  | inr e ↦ rw e h
]

trim_right-free :
    (p : Char → Bool) (s : String)
    → has_separator s ≡ false
    → has_separator (trim_right p s) ≡ false
unfolding trim_right has_separator
trim_right-free p Chars.[] h = h
trim_right-free p (Chars.◌∷◌ c s) h =
    let (here, rest) = tail-free c s h in
    elim (Bool-cases (is_nil (trim_right p s) && p c)) [
      | inl e ↦ rw e refl
      | inr e ↦ rw e (rw here (trim_right-free p s rest))
    ]

trim_space-free : (s : String) → has_separator s ≡ false → has_separator (trim_space s) ≡ false
unfolding trim_space
trim_space-free s h = trim_right-free _ _ (trim_left-free _ s h)

-- A member of a set is without a separator.
member-free :
    (parts : List String) (m : String)
    → NoSeparators parts
    → contains (members_of parts) m ≡ true
    → has_separator m ≡ false
unfolding members_of
member-free [] m h c = cc
member-free (s ∷ parts) m h c = elim (Bool-cases (trim_space s == "")) [
  | inl blank ↦ member-free parts m h.1 (rw blank at c)
  | inr named ↦
      let c' = rw named at c in
      elim (Bool-cases (trim_space s == m)) [
        | inl e ↦
            subst (λ x. has_separator x ≡ false) (eq_of_test (trim_space s) m e)
              (trim_space-free s h.0)
        | inr e ↦ member-free parts m h.1 (rw e at c')
      ]
]

no_set : (m : String) → has_separator m ≡ false → (binding_set m).1 ≡ false
unfolding binding_set
no_set m h = rw h refl

pub offered-no_set :
    (value m : String) → contains (binding_set value).0 m ≡ true → (binding_set m).1 ≡ false
unfolding binding_set
offered-no_set value m c = elim (Bool-cases (has_separator value)) [
  | inr plain ↦ cc (rw plain at c)
  | inl set ↦ no_set m (member-free (split value) m (split-NoSeparators value) (rw set at c))
]

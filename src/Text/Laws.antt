-- ===== src/Text/Laws.antt =====
-- Laws of the text functions.
use Prim.Native.String.{[], ◌∷◌}
use lib_agent_oauth.Prelude.{Char, String, ◌≡◌, refl, Bool, ◌&&◌, Bool-cases, inl, inr}
use lib_agent_oauth.Text.{is_nil, trim_right, trim_slash, is_char}

-- Trimming twice is trimming once.
pub trim_right_idem :
    (p : Char → Bool) (s : String) → trim_right p (trim_right p s) ≡ trim_right p s
unfolding trim_right
trim_right_idem p [] = refl
trim_right_idem p (c ∷ s) = elim (Bool-cases (is_nil (trim_right p s) && p c)) [
  | inl e ↦ rw e
  | inr e ↦ rw e (rw (trim_right_idem p s) (rw e))
]

pub trim_slash_idem : (s : String) → trim_slash (trim_slash s) ≡ trim_slash s
unfolding trim_slash
trim_slash_idem s = trim_right_idem (is_char b'/') s

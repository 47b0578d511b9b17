-- ===== src/Exec/Keeps.antt =====
-- Parts of the state that an action leaves alone, whether it succeeds or fails: one rule for each
-- way to build an action.
use lib_agent_oauth.Prelude.{◌≡◌, refl, ◌∙◌, Bool, true, false, if◌then◌else◌}
use lib_agent_oauth.Exec.{Exec, Result, ok, err, continue, pure, lift, ◌>>=◌}

-- `m` leaves `part` as it was.
pub record Keeps {W A B : Type 0} (part : W → B) (m : Exec W A) : Type 0 where
  pub at : (w : W) → part (m w).1 ≡ part w

module _ {W A B : Type 0} (part : W → B) where
  pub Keeps-pure : (a : A) → Keeps part (pure {W = W} a)
  Keeps-pure a = record { at = λ w. refl }

  pub Keeps-lift : (r : Result A) → Keeps part (lift {W = W} r)
  Keeps-lift r = record { at = λ w. refl }

  pub Keeps-if :
      (b : Bool) (m n : Exec W A) → Keeps part m → Keeps part n → Keeps part (if b then m else n)
  Keeps-if true m n p q = p
  Keeps-if false m n p q = q

module _ {W A B C : Type 0} (part : W → B) where
  Keeps-continue :
      (r : Result A) (f : A → Exec W C)
      → ((a : A) → Keeps part (f a))
      → (w : W) → part (continue r f w).1 ≡ part w
  Keeps-continue (ok a) f k w = (k a).at w
  Keeps-continue (err e) f k w = refl

  pub Keeps-bind :
      (m : Exec W A) (f : A → Exec W C)
      → Keeps part m
      → ((a : A) → Keeps part (f a))
      → Keeps part (m >>= f)
  Keeps-bind m f km kf = record { at = λ w. Keeps-continue (m w).0 f kf (m w).1 ∙ km.at w }

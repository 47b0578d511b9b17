-- ===== src/Http/Laws.antt =====
-- How a call inside a handler went.
use lib_agent_oauth.Prelude.{String, ◌≡◌, refl, ap, ◌⊎◌, inl, inr, ◌∙◌}
use lib_agent_oauth.Exec.{Exec, Result, ok, err}
use lib_agent_oauth.Exec.Keeps.{Keeps}
use lib_agent_oauth.Http.{Reply, Handler, settle, on}

module _ {W A : Type 0} (f : A → Handler W) (g : String → Handler W) where
  settle-cases :
      (r : Result A) (w w' : W) (rep : Reply)
      → settle r f g w ≡ (rep, w')
      → ((a : A) × (r ≡ ok a) × (f a w ≡ (rep, w')))
        ⊎ ((e : String) × (r ≡ err e) × (g e w ≡ (rep, w')))
  settle-cases (ok a) w w' rep h = inl (a, refl, h)
  settle-cases (err e) w w' rep h = inr (e, refl, h)

  -- The call succeeded and the handler went on with its value, or it failed and the handler went
  -- on with the error.
  pub on-cases :
      (m : Exec W A) (w w' : W) (rep : Reply)
      → on m f g w ≡ (rep, w')
      → ((a : A) × (v : W) × (m w ≡ (ok a, v)) × (f a v ≡ (rep, w')))
        ⊎ ((e : String) × (v : W) × (m w ≡ (err e, v)) × (g e v ≡ (rep, w')))
  on-cases m w w' rep h = elim (settle-cases (m w).0 (m w).1 w' rep h) [
    | inl (a, p, q) ↦ inl (a, (m w).1, λ i. (p i, (m w).1), q)
    | inr (e, p, q) ↦ inr (e, (m w).1, λ i. (p i, (m w).1), q)
  ]

-- A handler that leaves `part` as it was.
pub record HandlerKeeps {W B : Type 0} (part : W → B) (h : Handler W) : Type 0 where
  pub at : (w : W) → part (h w).1 ≡ part w

module _ {W A B : Type 0} (part : W → B) (f : A → Handler W) (g : String → Handler W) where
  settle-Keeps :
      (r : Result A)
      → ((a : A) → HandlerKeeps part (f a))
      → ((e : String) → HandlerKeeps part (g e))
      → (w : W) → part (settle r f g w).1 ≡ part w
  settle-Keeps (ok a) kf kg w = (kf a).at w
  settle-Keeps (err e) kf kg w = (kg e).at w

  pub on-Keeps :
      (m : Exec W A)
      → Keeps part m
      → ((a : A) → HandlerKeeps part (f a))
      → ((e : String) → HandlerKeeps part (g e))
      → HandlerKeeps part (on m f g)
  on-Keeps m km kf kg = record { at = λ w. settle-Keeps (m w).0 kf kg (m w).1 ∙ km.at w }

pub write-Keeps :
    {W : Type 0} {B : Type 0} (part : W → B) (rep : Reply) → HandlerKeeps part (λ w. (rep, w))
write-Keeps part rep = record { at = λ w. refl }

-- A call that succeeds.
pub on-ok :
    {W A : Type 0} (m : Exec W A) (f : A → Handler W) (g : String → Handler W) (w v : W) (a : A)
    → m w ≡ (ok a, v)
    → on m f g w ≡ f a v
on-ok {W} {A} m f g w v a h = ap (λ (x : Result A × W). settle x.0 f g x.1) h

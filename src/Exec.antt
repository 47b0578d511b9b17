-- ===== src/Exec.antt =====
-- A Go function that returns a value and an `error`, and that may change the world: the state
-- comes back beside an error too.
pub mod Keeps
use lib_agent_oauth.Prelude.{String, ◌≡◌, refl, ◌⊎◌, inl, inr, ap, subst, arith}

pub data Result {ℓ} (A : Type ℓ) : Type ℓ where
  ok : A → Result A
  err : String → Result A

abbrev pub Exec {ℓ} : Type ℓ → Type ℓ → Type ℓ
Exec W A = W → Result A × W

pub Result-cases {ℓ} :
    {A : Type ℓ} (r : Result A) → ((a : A) × (r ≡ ok a)) ⊎ ((e : String) × (r ≡ err e))
Result-cases (ok a) = inl (a, refl)
Result-cases (err e) = inr (e, refl)

module _ {ℓ} {W A : Type ℓ} where
  abbrev pub pure : A → Exec W A
  pure a w = (ok a, w)

  abbrev pub raise : String → Exec W A
  raise e w = (err e, w)

  abbrev pub gets : (W → A) → Exec W A
  gets f w = (ok (f w), w)

  abbrev pub lift : Result A → Exec W A
  lift r w = (r, w)

module _ {ℓ} {W A B : Type ℓ} where
  -- `if err != nil { return err }`, and otherwise the rest of the body.
  abbrev pub continue : Result A → (A → Exec W B) → Exec W B
  continue (ok a) f w = f a w
  continue (err e) f w = (err e, w)

  infixl 5 ◌>>=◌ ◌>>◌
  abbrev pub ◌>>=◌ : Exec W A → (A → Exec W B) → Exec W B
  ◌>>=◌ m f w = continue (m w).0 f (m w).1

  abbrev pub ◌>>◌ : Exec W A → Exec W B → Exec W B
  m >> n = m >>= λ _. n

module _ {ℓ} {W A B : Type ℓ} (f : A → Exec W B) where
  continue-ok :
      (r : Result A) (w w' : W) {b : B}
      → continue r f w ≡ (ok b, w')
      → (a : A) × (r ≡ ok a) × (f a w ≡ (ok b, w'))
  continue-ok (ok a) w w' h = (a, refl, h)
  continue-ok (err e) w w' h = cc

  -- A successful block: its first step succeeded, and the rest did from there.
  pub bind-ok :
      (m : Exec W A) (w w' : W) {b : B}
      → continue (m w).0 f (m w).1 ≡ (ok b, w')
      → (a : A) × (v : W) × (m w ≡ (ok a, v)) × (f a v ≡ (ok b, w'))
  bind-ok m w w' h =
      let (a, e, k) = continue-ok (m w).0 (m w).1 w' h in (a, (m w).1, λ i. (e i, (m w).1), k)

  continue-err :
      (r : Result A) (w w' : W) {e : String}
      → continue r f w ≡ (err e, w')
      → ((r ≡ err e) × (w ≡ w')) ⊎ ((a : A) × (r ≡ ok a) × (f a w ≡ (err e, w')))
  continue-err (ok a) w w' h = inr (a, refl, h)
  continue-err (err e) w w' h = inl (cc, ap (λ (p : Result B × W). p.1) h)

  -- A failed block: its first step failed, or the rest did.
  pub bind-err :
      (m : Exec W A) (w w' : W) {e : String}
      → continue (m w).0 f (m w).1 ≡ (err e, w')
      → (m w ≡ (err e, w')) ⊎ ((a : A) × (v : W) × (m w ≡ (ok a, v)) × (f a v ≡ (err e, w')))
  bind-err m w w' h = elim (continue-err (m w).0 (m w).1 w' h) [
    | inl (p, q) ↦ inl (λ i. (p i, q i))
    | inr (a, p, q) ↦ inr (a, (m w).1, λ i. (p i, (m w).1), q)
  ]

-- What a final `return` gives.
pub pure-ok {ℓ} :
    {W A : Type ℓ} (a : A) (w w' : W) {b : A} → pure a w ≡ (ok b, w') → (a ≡ b) × (w ≡ w')
pure-ok {W} {A} a w w' h = (ground arith, ap (λ (r : Result A × W). r.1) h)

-- A successful step whose value is then returned through `g`.
pub bind-pure-ok {ℓ} :
    {W A B : Type ℓ} (g : A → B) (m : Exec W A) (w w' : W) {b : B}
    → continue (m w).0 (λ a. pure (g a)) (m w).1 ≡ (ok b, w')
    → (a : A) × (m w ≡ (ok a, w')) × (g a ≡ b)
bind-pure-ok g m w w' h =
    let (a, v, p, q) = bind-ok (λ a. pure (g a)) m w w' h in
    let (value, same) = pure-ok (g a) v w' q in (a, subst (λ u. m w ≡ (ok a, u)) same p, value)

-- ===== src/Random/Laws.antt =====
-- Laws of random.go.
use lib_agent_oauth.Prelude.{ℕ, suc, String, ◌≡◌, refl, sym, ap, ◌∙◌}
use lib_agent_oauth.Exec.{ok, err, Result, continue, pure}
use lib_agent_oauth.Env.{Env}
use lib_agent_oauth.Model.{World}
use lib_agent_oauth.Encode.{encode64}
use lib_agent_oauth.Random.{rand_token, read_random}

module _ ⦃env : Env⦄ where
  abbrev pub drawing : World env.S → World env.S
  drawing w = record w { drawn = suc w.drawn }

  continue-pure {ℓ} :
      {A B W : Type ℓ} (r : Result A) (f : A → B) (w : W) → (continue r (λ a. pure (f a)) w).1 ≡ w
  continue-pure (ok a) f w = refl
  continue-pure (err e) f w = refl

  pub rand_token-draws : (n : ℕ) (w : World env.S) → (rand_token n w).1 ≡ drawing w
  unfolding rand_token read_random
  rand_token-draws n w = continue-pure _ encode64 (drawing w)

  pub drawn_from :
      (n : ℕ) (w v : World env.S) {r : Result String} → rand_token n w ≡ (r, v) → v ≡ drawing w
  drawn_from n w v h = sym (ap (λ (p : Result String × World env.S). p.1) h) ∙ rand_token-draws n w

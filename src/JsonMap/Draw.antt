-- ===== src/JsonMap/Draw.antt =====
-- A stored map that gains an entry under a freshly drawn token.
use lib_agent_oauth.Prelude.{ℕ, String, ◌≡◌, ap, subst, arith}
use lib_agent_oauth.Map.{Map}
use lib_agent_oauth.Json.Codec.{Codec}
use lib_agent_oauth.Exec.{Result, ok, bind-ok, pure, ◌>>=◌, ◌>>◌}
use lib_agent_oauth.Env.{Env}
use lib_agent_oauth.Model.{World, M}
use lib_agent_oauth.Store.{IsLawful}
use lib_agent_oauth.JsonMap.{Change, mutate}
use lib_agent_oauth.Random.{rand_token}
use lib_agent_oauth.Random.Laws.{drawing, drawn_from}
use lib_agent_oauth.JsonMap.Laws.{Mutated, mutate-ok}

module _ ⦃env : Env⦄ where
  module _ {V : Type 0} (c : Codec V) where
    -- `issue`, `Register`: a fresh token, a change of the map under the token, and a result.
    abbrev pub draw_and_store :
        {B : Type 0} → String → ℕ → (String → Map V → Change (Unit {0}) V) → (String → B) → M B
    draw_and_store key n f result = do
      token ← rand_token n
      mutate c key (f token)
      pure (result token)

    -- A successful run of that: which token was drawn, and the change that it made.
    pub draw_and_store-ok :
        {B : Type 0}
        → IsLawful env.store
        → (key : String) (n : ℕ) (f : String → Map V → Change (Unit {0}) V) (result : String → B)
          (w w' : World env.S) {b : B}
        → draw_and_store key n f result w ≡ (ok b, w')
        → (token : String) × (rand_token n w ≡ (ok token, drawing w))
          × (result token ≡ b)
          × Mutated c key (f token) (drawing w) tt w'
    draw_and_store-ok lawful key n f result w w' h =
        let (token, v, p, q) =
          bind-ok (λ t. mutate c key (f t) >> pure (result t)) (rand_token n) w w' h in
        let e = drawn_from n w v p in
        let (u, v', p', q') = bind-ok (λ _. pure (result token)) (mutate c key (f token)) v w' q in
        let same : v' ≡ w' = ap (λ (r : Result _ × World env.S). r.1) q' in
        (
          token,
          subst (λ x. rand_token n w ≡ (ok token, x)) e p,
          ground arith,
          subst (λ x. Mutated c key (f token) x tt w') e
              (mutate-ok c lawful key (f token) v w'
                (subst (λ x. mutate c key (f token) v ≡ (ok tt, x)) same p')),
        )

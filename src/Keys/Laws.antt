-- ===== src/Keys/Laws.antt =====
-- Laws of the signing keys of token.go.
use lib_agent_oauth.Prelude.{
  ℕ, zero, suc, ◌≤◌, String, ◌≡◌, refl, sym, ap, subst, ◌∙◌, inl, inr, Bool-cases, not, Option,
  none, some, List, [], ◌∷◌, ◌++◌, length, take, ltb, eqb, eq_refl, arith,
}
use lib_agent_oauth.Exec.{Result, ok, err, continue, ◌>>=◌, ◌>>◌, bind-ok, pure, pure-ok}
use lib_agent_oauth.Env.{Env, Stored, plain}
use lib_agent_oauth.Model.{World, M}
use lib_agent_oauth.Store.{IsLawful}
use lib_agent_oauth.JsonMap.{store_get, store_set}
use lib_agent_oauth.JsonMap.Laws.{stored, set-stored}
use lib_agent_oauth.Pairing.{content}
use lib_agent_oauth.Random.{read_random, drawn_bytes}
use lib_agent_oauth.Encode.{encode64}
use lib_agent_oauth.Decode.{decode64}
use lib_agent_oauth.Decode.Laws.{AreBytes, decode64-encode64}
use lib_agent_oauth.Keys.{
  signing_key_store_key, ed25519_seed_store_key, checked, check_hmac, new_key_from_seed, check_seed,
  stored_or, load_or_create_hmac_key, load_or_create_ed25519,
}

module _ ⦃env : Env⦄ where
  -- `rand.Read` fills the buffer that it is given.
  pub record FillsBuffers : Type 0 where
    pub size : (n k : ℕ) (b : List ℕ) → env.entropy n k ≡ some b → length b ≡ k
    pub bytes : (n k : ℕ) (b : List ℕ) → env.entropy n k ≡ some b → AreBytes b

  drawn :
      (n : ℕ) (w v : World env.S) {b : List ℕ}
      → read_random n w ≡ (ok b, v)
      → env.entropy w.drawn n ≡ some b
  unfolding read_random
  drawn n w v {b} h =
      from_ok (env.entropy w.drawn n) (ap (λ (r : Result (List ℕ) × World env.S). r.0) h)
    where
      from_ok : (o : Option (List ℕ)) → drawn_bytes o ≡ ok b → o ≡ some b
      from_ok none e = cc
      from_ok (some x) e = cc

  -- A key that is loaded, or made from 32 random bytes whose text is stored.
  module _ (lawful : IsLawful env.store) (fills : FillsBuffers) (at : String)
      (check : List ℕ → Result (List ℕ)) (text make : List ℕ → List ℕ) where
    abbrev create : M (List ℕ)
    create = do b ← read_random 32; store_set at (plain (encode64 (text b))); pure (make b)

    abbrev load : M (List ℕ)
    load = do v ← store_get at; stored_or check create v

    create-stored :
        (w w' : World env.S) {k : List ℕ}
        → create w ≡ (ok k, w')
        → (b : List ℕ) × (length b ≡ 32)
          × AreBytes b
          × (k ≡ make b)
          × (stored w' at ≡ ok (some (plain (encode64 (text b)))))
    create-stored w w' {k} h =
        let (b, v, p, q) = bind-ok _ (read_random 32) w w' h in
        let (_, u, p', q') =
          bind-ok (λ _. pure (make b)) (store_set at (plain (encode64 (text b)))) v w' q in
        let (value, same) = pure-ok (make b) u w' q' in
        let set : store_set at (plain (encode64 (text b))) v ≡ (ok tt, w') =
          subst (λ x. store_set at (plain (encode64 (text b))) v ≡ (ok tt, x)) same p' in
        let entropy = drawn 32 w v p in
        (
          b,
          fills.size w.drawn 32 b entropy,
          fills.bytes w.drawn 32 b entropy,
          sym value,
          rw (set-stored lawful at at (plain (encode64 (text b))) v w' set) (rw eq_refl refl),
        )

    -- What the loaded key is: the check's answer on what is stored afterwards.
    module _ (seed : (b : List ℕ) → length b ≡ 32 → (text b ≡ b) × (check b ≡ ok (make b))) where
      got :
          (o : Result (Option Stored)) (w w' : World env.S) {k : List ℕ}
          → stored w at ≡ o
          → continue o (stored_or check create) w ≡ (ok k, w')
          → (v : Stored) × (stored w' at ≡ ok (some v))
            × (checked check (decode64 (content v)) ≡ ok k)
      got (err e) w w' s h = cc
      got (ok none) w w' s h =
          let (b, size, bytes, value, set) = create-stored w w' h in
          let (same, checks) = seed b size in
          (
            plain (encode64 (text b)),
            set,
            ap (λ x. checked check (decode64 (encode64 x))) same
                ∙ ap (checked check) (decode64-encode64 b bytes)
                ∙ checks
                ∙ ap ok (sym value),
          )
      got (ok (some v)) w w' s h = (
        v,
        ap (λ x. stored x at) (sym (ap (λ (r : Result (List ℕ) × World env.S). r.1) h)) ∙ s,
        ap (λ (r : Result (List ℕ) × World env.S). r.0) h,
      )

      again :
          (w w' u : World env.S) {k : List ℕ}
          → load w ≡ (ok k, w')
          → stored u at ≡ stored w' at
          → (load u ≡ (ok k, u)) × ((b : List ℕ) × (check b ≡ ok k))
      unfolding store_get
      again w w' u {k} h same =
          let (v, held, value) = got (stored w at) w w' refl h in
          (rw (same ∙ held) (ap (λ r. (r, u)) value), checked-ok (decode64 (content v)) value)
        where
          checked-ok :
              (o : Option (List ℕ)) → checked check o ≡ ok k → (b : List ℕ) × (check b ≡ ok k)
          checked-ok none e = cc
          checked-ok (some b) e = (b, e)

  take-append : (n : ℕ) (l m : List ℕ) → length l ≡ n → take n (l ++ m) ≡ l
  unfolding take
  take-append zero [] m h = refl
  take-append zero (x ∷ l) m h = absurd (omega arith)
  take-append (suc n) [] m h = absurd (omega arith)
  take-append (suc n) (x ∷ l) m h = ap (λ r. x ∷ r) (take-append n l m (omega arith))

  check_hmac-ok : (b k : List ℕ) → check_hmac b ≡ ok k → 32 ≤ length k
  check_hmac-ok b k h = elim (Bool-cases (ltb (length b) 32)) [
    | inl short ↦ cc (rw short at h)
    | inr long ↦ subst (λ x. 32 ≤ length x) (ok_eq (rw long at h)) (ground arith)
  ]
    where
      ok_eq : {x y : List ℕ} → ok x ≡ ok y → x ≡ y
      ok_eq e = cc

  -- An HMAC key that is loaded or made has at least 32 bytes, and every later load, in any state in
  -- which the same is stored for it, gives the same key and changes nothing.
  pub load_or_create_hmac_key-again :
      (lawful : IsLawful env.store) (fills : FillsBuffers) (w w' u : World env.S) (k : List ℕ)
      → load_or_create_hmac_key w ≡ (ok k, w')
      → stored u signing_key_store_key ≡ stored w' signing_key_store_key
      → (32 ≤ length k) × (load_or_create_hmac_key u ≡ (ok k, u))
  unfolding load_or_create_hmac_key
  load_or_create_hmac_key-again lawful fills w w' u k h same =
      let (once_more, (b, checks)) =
        again lawful fills signing_key_store_key check_hmac (λ b. b) (λ b. b)
          (λ b size. (refl, rw size refl)) w w' u h same in
      (check_hmac-ok b k checks, once_more)

  check_seed-ok : (b k : List ℕ) → check_seed b ≡ ok k → (length b ≡ 32) × (k ≡ new_key_from_seed b)
  check_seed-ok b k h = elim (Bool-cases (not (eqb (length b) 32))) [
    | inl bad ↦ cc (rw bad at h)
    | inr good ↦ (ground arith, sym (ok_eq (rw good at h)))
  ]
    where
      ok_eq : {x y : List ℕ} → ok x ≡ ok y → x ≡ y
      ok_eq e = cc

  -- An Ed25519 key that is loaded or made is that of a seed of 32 bytes, and every later load, in
  -- any state in which the same is stored for it, gives the same key and changes nothing.
  pub load_or_create_ed25519-again :
      (lawful : IsLawful env.store) (fills : FillsBuffers) (w w' u : World env.S) (k : List ℕ)
      → load_or_create_ed25519 w ≡ (ok k, w')
      → stored u ed25519_seed_store_key ≡ stored w' ed25519_seed_store_key
      → ((seed : List ℕ) × (length seed ≡ 32) × (k ≡ new_key_from_seed seed))
        × (load_or_create_ed25519 u ≡ (ok k, u))
  unfolding load_or_create_ed25519
  load_or_create_ed25519-again lawful fills w w' u k h same =
      let (once_more, (b, checks)) =
        again lawful fills ed25519_seed_store_key check_seed (λ b. take 32 (new_key_from_seed b))
          new_key_from_seed (λ b size. (take-append 32 b (env.ed25519_public b) size, rw size refl))
          w w' u h same in
      let (size, is) = check_seed-ok b k checks in ((b, size, is), once_more)

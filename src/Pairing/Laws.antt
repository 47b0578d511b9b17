-- ===== src/Pairing/Laws.antt =====
-- Laws of pairing.go: Code and Rotate.
use lib_agent_oauth.Prelude.{
  ℕ, String, ◌≡◌, ◌≢◌, refl, sym, ap, subst, ◌∙◌, Option, none, some, List,
}
use lib_agent_oauth.Exec.{ok, err, continue, Result, bind-ok, pure, pure-ok}
use lib_agent_oauth.Env.{Env, Stored, plain}
use lib_agent_oauth.Model.{World}
use lib_agent_oauth.Store.{IsLawful}
use lib_agent_oauth.JsonMap.{store_get, store_set}
use lib_agent_oauth.JsonMap.Laws.{stored, set-stored, set-Writes}
use lib_agent_oauth.Random.{read_random}
use lib_agent_oauth.Random.Laws.{drawing}
use lib_agent_oauth.Pairing.{
  pairing_code_store_key, generate_pairing_code, rotate, stored_code, shared_code, content,
}

module _ ⦃env : Env⦄ where
  -- Making a code draws randomness and changes nothing else.
  pub generate-draws :
      (w w' : World env.S) {code : String}
      → generate_pairing_code w ≡ (ok code, w')
      → w' ≡ drawing w
  unfolding generate_pairing_code read_random
  generate-draws w w' h =
      let (b, v, p, q) = bind-ok _ (read_random 16) w w' h in
      let (_, same) = pure-ok _ v w' q in
      sym same ∙ sym (ap (λ (r : Result (List ℕ) × World env.S). r.1) p)

  got-same :
      (w w' : World env.S) {o : Option Stored}
      → store_get pairing_code_store_key w ≡ (ok o, w')
      → w' ≡ w
  unfolding store_get
  got-same w w' h = sym (ap (λ (r : Result (Option Stored) × World env.S). r.1) h)

  module _ (lawful : IsLawful env.store) where
    -- A new code is the stored one, and no other key is touched.
    pub rotate-ok :
        (w w' : World env.S) {code : String}
        → rotate w ≡ (ok code, w')
        → (stored w' pairing_code_store_key ≡ ok (some (plain code)))
          × ((j : String) → pairing_code_store_key ≢ j → stored w' j ≡ stored w j)
    unfolding rotate
    rotate-ok w w' {code} h =
        let (fresh, v, p, q) = bind-ok _ generate_pairing_code w w' h in
        let (_, v', p', q') =
          bind-ok (λ _. pure fresh) (store_set pairing_code_store_key (plain fresh)) v w' q in
        let (value, same) = pure-ok fresh v' w' q' in
        let set : store_set pairing_code_store_key (plain fresh) v ≡ (ok tt, w') =
          subst (λ u. store_set pairing_code_store_key (plain fresh) v ≡ (ok tt, u)) same p' in
        let drawn = generate-draws w v p in
        (
          rw
              (set-stored lawful pairing_code_store_key pairing_code_store_key (plain fresh) v w'
                set)
              (ap (λ c. ok (some (plain c))) value),
          λ j ne.
              (set-Writes lawful pairing_code_store_key (plain fresh) v w' set).frame j ne
              ∙ ap (λ u. stored u j) drawn,
        )

    stored_code-frame :
        (o : Option Stored) (w w' : World env.S) {code : String}
        → stored_code o w ≡ (ok code, w')
        → (j : String) → pairing_code_store_key ≢ j
        → stored w' j ≡ stored w j
    stored_code-frame none w w' h = (rotate-ok w w' h).1
    stored_code-frame (some v) w w' h =
        λ j ne. ap (λ u. stored u j) (sym (pure-ok (content v) w w' h).1)

    -- Asking for the shared code touches no other key.
    pub shared_code-frame :
        (w w' : World env.S) {code : String}
        → shared_code w ≡ (ok code, w')
        → (j : String) → pairing_code_store_key ≢ j
        → stored w' j ≡ stored w j
    unfolding shared_code
    shared_code-frame w w' h j ne =
        let (o, v, p, q) = bind-ok stored_code (store_get pairing_code_store_key) w w' h in
        stored_code-frame o v w' q j ne ∙ ap (λ u. stored u j) (got-same w v p)

    stored_code-again :
        (o : Result (Option Stored)) (w w' : World env.S) {code : String}
        → stored w pairing_code_store_key ≡ o
        → continue o stored_code w ≡ (ok code, w')
        → (v : Stored) × (stored w' pairing_code_store_key ≡ ok (some v)) × (content v ≡ code)
    stored_code-again (err e) w w' s h = cc
    stored_code-again (ok none) w w' {code} s h = (plain code, (rotate-ok w w' h).0, refl)
    stored_code-again (ok (some v)) w w' s h =
        let (value, same) = pure-ok (content v) w w' h in
        (v, ap (λ u. stored u pairing_code_store_key) (sym same) ∙ s, value)

    -- The shared code is made once: in any state in which the same is stored for it as after a first
    -- request, every later one gives the same code and changes nothing.
    pub shared_code-again :
        (w w' u : World env.S) {code : String}
        → shared_code w ≡ (ok code, w')
        → stored u pairing_code_store_key ≡ stored w' pairing_code_store_key
        → shared_code u ≡ (ok code, u)
    unfolding shared_code store_get
    shared_code-again w w' u h same =
        let (v, held, value) = stored_code-again (stored w pairing_code_store_key) w w' refl h in
        rw (same ∙ held) (ap (λ c. (ok c, u)) value)

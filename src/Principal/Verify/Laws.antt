-- ===== src/Principal/Verify/Laws.antt =====
-- Which identity VerifyPrincipal establishes, exactly.
use lib_agent_oauth.Prelude.{
  In, String, ◌≡◌, refl, sym, ap, subst, ◌∙◌, ◌⊎◌, inl, inr, true, false, Bool-cases, Option, none,
  some, List, [], ◌∷◌, eq_iff, eq_of_test,
}
use lib_agent_oauth.Map
use lib_agent_oauth.Map.{Map}
use lib_agent_oauth.Exec.{ok, bind-ok, pure-ok}
use lib_agent_oauth.Env.{Env}
use lib_agent_oauth.Model.{World, PrincipalGrant, anonymous}
use lib_agent_oauth.JsonMap.{load}
use lib_agent_oauth.JsonMap.Laws.{reads, load-ok}
use lib_agent_oauth.Pairing.{shared_code, normalize_pairing, equal_pairing}
use lib_agent_oauth.Principal.Codec.{PrincipalRecord, record_codec}
use lib_agent_oauth.Principal.{principals_store_key}
use lib_agent_oauth.Principal.Verify.{
  sorted, keys, PairingCandidate, named_candidate, named_candidates, operator, candidates,
  match_all, verify_principal,
}
use lib_agent_oauth.Principal.Verify.Sorted.{In-sorted, sorted-In, In-keys, keys-In}

module _ ⦃env : Env⦄ where
  -- Two codes are the same but for case, separators, the prefix and confusable characters.
  abbrev pub SameCode : String → String → Type 0
  SameCode a b = normalize_pairing a ≡ normalize_pairing b

  match_all-some :
      (got : String) (cs : List PairingCandidate) (g : PrincipalGrant)
      → match_all got cs (some g) ≡ some g
  unfolding match_all
  match_all-some got [] g = refl
  match_all-some got (c ∷ cs) g = match_all-some got cs g

  match_all-hit :
      (got : String) (c : PairingCandidate) (cs : List PairingCandidate)
      → equal_pairing got c.code ≡ true
      → match_all got (c ∷ cs) none ≡ some c.grant
  unfolding match_all
  match_all-hit got c cs e = rw (e, match_all) (match_all-some got cs c.grant)

  match_all-miss :
      (got : String) (c : PairingCandidate) (cs : List PairingCandidate)
      → equal_pairing got c.code ≡ false
      → match_all got (c ∷ cs) none ≡ match_all got cs none
  unfolding match_all
  match_all-miss got c cs e = rw (e, match_all)

  abbrev pub candidate_of : Map PrincipalRecord → String → PairingCandidate
  candidate_of m name = named_candidate name (Map.lookup name m)

  -- The loop over the principals: a match and its grant, or no match at all.
  abbrev NamedOutcome : String → Map PrincipalRecord → List String → Option PrincipalGrant → Type 0
  NamedOutcome got m names o =
      ((name : String) × In name names
        × (equal_pairing got (candidate_of m name).code ≡ true)
        × (o ≡ some (candidate_of m name).grant))
      ⊎ ((o ≡ none)
          × ((name : String)
              → In name names
              → equal_pairing got (candidate_of m name).code ≡ false))

  named-NamedOutcome :
      (got : String) (m : Map PrincipalRecord) (names : List String)
      → NamedOutcome got m names (match_all got (named_candidates m names) none)
  unfolding named_candidates match_all
  named-NamedOutcome got m [] = inr (refl, λ name h. absurd h)
  named-NamedOutcome got m (n ∷ names) =
      elim (Bool-cases (equal_pairing got (candidate_of m n).code)) [
        | inl e ↦
            inl (n, inl refl, e, match_all-hit got (candidate_of m n) (named_candidates m names) e)
        | inr e ↦
            subst (NamedOutcome got m (n ∷ names))
              (sym (match_all-miss got (candidate_of m n) (named_candidates m names) e))
              (elim (named-NamedOutcome got m names) [
                | inl (name, h, eq, r) ↦ inl (name, inr h, eq, r)
                | inr (r, all) ↦ inr (
                  r,
                  λ name. elim [
                    | inl p ↦ subst (λ x. equal_pairing got (candidate_of m x).code ≡ false) p e
                    | inr h ↦ all name h
                  ],
                )
              ])
      ]

  -- The identity that an entered code establishes, given the shared code and the principals.
  abbrev pub Outcome : String → String → Map PrincipalRecord → Option PrincipalGrant → Type 0
  Outcome input shared m o =
      ((o ≡ some anonymous) × SameCode input shared)
      ⊎ ((name : String) × (r : PrincipalRecord) × (¬ SameCode input shared)
          × (Map.lookup name m ≡ some r)
          × SameCode input r.code
          × (o ≡ some (record { name = name; binding = r.binding })))
      ⊎ ((o ≡ none)
          × (¬ SameCode input shared)
          × ((name : String) (r : PrincipalRecord)
              → Map.lookup name m ≡ some r
              → ¬ SameCode input r.code))

  equal-same :
      (input stored : String)
      → equal_pairing (normalize_pairing input) stored ≡ true
      → SameCode input stored
  unfolding equal_pairing
  equal-same input stored h = eq_of_test _ _ h

  not-same :
      (input stored : String)
      → equal_pairing (normalize_pairing input) stored ≡ false
      → ¬ SameCode input stored
  unfolding equal_pairing
  not-same input stored h e =
      cc (h, (eq_iff (normalize_pairing input) (normalize_pairing stored)).1 e)

  match_all-Outcome :
      (input shared : String) (m : Map PrincipalRecord)
      → Outcome input shared m (
          match_all
            (normalize_pairing input)
            (operator shared ∷ named_candidates m (sorted (keys m)))
            none)
  match_all-Outcome input shared m =
      elim (Bool-cases (equal_pairing (normalize_pairing input) shared)) [
        | inl e ↦ inl (
          match_all-hit _ (operator shared) (named_candidates m (sorted (keys m))) e,
          equal-same input shared e,
        )
        | inr e ↦
            subst (Outcome input shared m)
              (sym (match_all-miss _ (operator shared) (named_candidates m (sorted (keys m))) e))
              (elim (named-NamedOutcome (normalize_pairing input) m (sorted (keys m))) [
                | inl (name, h, eq, r) ↦
                    let (rec, found) = keys-In name m (sorted-In name (keys m) h) in
                    inr (
                      inl (
                        name,
                        rec,
                        not-same input shared e,
                        found,
                        equal-same input rec.code (rw found at eq),
                        rw found at r,
                      ))
                | inr (r, all) ↦ inr (
                    inr (
                      r,
                      not-same input shared e,
                      λ name rec found.
                          not-same input rec.code (
                            rw found at
                              (all name (In-sorted name (keys m) (In-keys name m found)))),
                    ))
              ])
      ]

  -- The principals that a state holds.
  abbrev pub Principals : World env.S → Map PrincipalRecord → Type 0
  Principals w m = reads record_codec principals_store_key w ≡ ok m

  candidates-ok :
      (w w' : World env.S) {cs : List PairingCandidate}
      → candidates w ≡ (ok cs, w')
      → (shared : String) × (m : Map PrincipalRecord) × (shared_code w ≡ (ok shared, w'))
        × Principals w' m
        × (operator shared ∷ named_candidates m (sorted (keys m)) ≡ cs)
  unfolding candidates
  candidates-ok w w' {cs} h =
      let (shared, v, p, q) = bind-ok _ shared_code w w' h in
      let (m, v', p', q') = bind-ok _ (load record_codec principals_store_key) v w' q in
      let (value, same') = pure-ok _ v' w' q' in
      let (held, same) = load-ok record_codec principals_store_key v v' p' in
      (
        shared,
        m,
        subst (λ u. shared_code w ≡ (ok shared, u)) (same ∙ same') p,
        subst (λ u. Principals u m) (same ∙ same') held,
        value,
      )

  -- A verification that succeeds has read the shared code and the principals, and its answer is
  -- the operator if the code is the shared one, otherwise a principal that has this code with the
  -- stored binding, and `none` exactly when nobody has it.
  pub verify_principal-exact :
      (input : String) (w w' : World env.S) {o : Option PrincipalGrant}
      → verify_principal input w ≡ (ok o, w')
      → (shared : String) × (m : Map PrincipalRecord) × (shared_code w ≡ (ok shared, w'))
        × Principals w' m
        × Outcome input shared m o
  unfolding verify_principal
  verify_principal-exact input w w' {o} h =
      let (cs, v, p, q) = bind-ok _ candidates w w' h in
      let (value, same) = pure-ok _ v w' q in
      let (shared, m, shared_is, held, list) =
        candidates-ok w w' (subst (λ u. candidates w ≡ (ok cs, u)) same p) in
      let found : match_all (normalize_pairing input)
            (operator shared ∷ named_candidates m (sorted (keys m))) none
          ≡ o =
        ap (λ l. match_all (normalize_pairing input) l none) list ∙ value in
      (
        shared,
        m,
        shared_is,
        held,
        subst (Outcome input shared m) found (match_all-Outcome input shared m),
      )

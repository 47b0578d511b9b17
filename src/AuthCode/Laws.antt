-- ===== src/AuthCode/Laws.antt =====
-- Laws of authcode.go: issue and consume.
use lib_agent_oauth.Prelude.{
  ℕ, ◌+◌, ◌<◌, ◌≤◌, String, ◌≡◌, ◌≢◌, refl, ap, subst, inl, inr, ◌⊎◌, Option, none, some, arith,
  eq_refl, ne_test, ltb, if◌then◌else◌,
}
use lib_agent_oauth.Map
use lib_agent_oauth.Map.{lookup-insert, lookup-insert_same, lookup-delete}
use lib_agent_oauth.Exec.{ok, err, Result, bind-ok, bind-err}
use lib_agent_oauth.Env.{Env}
use lib_agent_oauth.Model.{World, AuthGrant}
use lib_agent_oauth.Random.{rand_token}
use lib_agent_oauth.Random.Laws.{drawing, drawn_from}
use lib_agent_oauth.AuthCode.{put, issue, consume, unexpired}

module _ ⦃env : Env⦄ where
  -- What an accepted lookup says of the stored grant.
  pub consume-accepted :
      (now : ℕ) (o : Option AuthGrant) {g : AuthGrant}
      → unexpired now o ≡ some g
      → (o ≡ some g) × (now ≤ g.expires_at)
  unfolding unexpired
  consume-accepted now none h = ground arith
  consume-accepted now (some x) {g} h = ground arith

  unexpired-none :
      (now : ℕ) (o : Option AuthGrant)
      → (o ≡ none) ⊎ ((g : AuthGrant) × (o ≡ some g) × (g.expires_at < now))
      → unexpired now o ≡ none
  unfolding unexpired
  unexpired-none now o h = ground arith

  pub gone : (code : String) (w : World env.S) → Map.lookup code (consume code w).1.codes ≡ none
  unfolding consume
  gone code w = rw (lookup-delete code code w.codes) (rw eq_refl)

  refused :
      (code : String) (w : World env.S)
      → Map.lookup code w.codes ≡ none
      → (consume code w).0 ≡ ok none
  unfolding consume
  refused code w h = rw h (unfold unexpired in refl)

  -- A code that `consume` accepts was stored with that grant and had not expired; it is refused
  -- from then on, at any time, and no other code is affected.
  pub consume-single_use :
      (code : String) (w w' : World env.S) {g : AuthGrant}
      → consume code w ≡ (ok (some g), w')
      → (Map.lookup code w.codes ≡ some g)
        × (w.now ≤ g.expires_at)
        × ((t : ℕ) → (consume code (record w' { now = t })).0 ≡ ok none)
        × ((other : String) → code ≢ other → Map.lookup other w'.codes ≡ Map.lookup other w.codes)
  consume-single_use code w w' {g} h =
      let (stored, fresh) =
        consume-accepted w.now (Map.lookup code w.codes) {g = g} (unfold consume in ground arith) in
      (
        stored,
        fresh,
        λ t. refused code _ (rw (← ap (λ (r : Result _ × World env.S). r.1) h) (gone code w)),
        λ other ne.
            unfold consume in
            rw (← ap (λ (r : Result _ × World env.S). r.1) h)
              (rw (lookup-delete code other w.codes, ne_test code other ne)),
      )

  -- A code that is unknown or expired is refused, and is gone as well.
  pub consume-refuses :
      (code : String) (w : World env.S)
      → (Map.lookup code w.codes ≡ none)
        ⊎ ((g : AuthGrant) × (Map.lookup code w.codes ≡ some g) × (g.expires_at < w.now))
      → ((consume code w).0 ≡ ok none) × (Map.lookup code (consume code w).1.codes ≡ none)
  consume-refuses code w h = (unfold consume in ap ok (unexpired-none _ _ h), gone code w)

  -- What may happen to the code store, in any order, without `code` being issued again.
  pub data Later (code : String) (w : World env.S) : World env.S → Type 0 where
    here : Later code w w
    issues :
        {u v : World env.S} (ttl : ℕ) (g : AuthGrant) (fresh : String)
        → Later code w u
        → issue ttl g u ≡ (ok fresh, v)
        → fresh ≢ code
        → Later code w v
    fails :
        {u v : World env.S} (ttl : ℕ) (g : AuthGrant) (e : String)
        → Later code w u
        → issue ttl g u ≡ (err e, v)
        → Later code w v
    consumes :
        {u : World env.S} (other : String) → Later code w u → Later code w (consume other u).1
    others : {u v : World env.S} → Later code w u → v.codes ≡ u.codes → Later code w v

  -- The state with the grant under the code.
  abbrev pub stored_in : String → AuthGrant → ℕ → World env.S → World env.S
  stored_in code g ttl w = record w {
    codes = Map.insert code (record g { expires_at = w.now + ttl }) w.codes;
  }

  put-ok :
      (ttl : ℕ) (g : AuthGrant) (fresh : String) (w w' : World env.S) {code : String}
      → put ttl g fresh w ≡ (ok code, w')
      → w' ≡ stored_in code g ttl w
  unfolding put
  put-ok ttl g fresh w w' h = ground arith

  pub issue-ok :
      (ttl : ℕ) (g : AuthGrant) (w w' : World env.S) {code : String}
      → issue ttl g w ≡ (ok code, w')
      → w' ≡ stored_in code g ttl (drawing w)
  unfolding issue
  issue-ok ttl g w w' {code} h =
      let (fresh, v, p, q) = bind-ok (put ttl g) (rand_token 32) w w' h in
      subst (λ u. w' ≡ stored_in code g ttl u) (drawn_from 32 w v p) (put-ok ttl g fresh v w' q)

  -- A code that was issued is accepted until `ttl` has passed, with the grant it was issued for, and
  -- is refused from then on.
  pub consume-issue :
      (ttl : ℕ) (g : AuthGrant) (w w' : World env.S) (t : ℕ) {code : String}
      → issue ttl g w ≡ (ok code, w')
      → (consume code (record w' { now = t })).0
        ≡ ok (if ltb (w.now + ttl) t then none else some (record g { expires_at = w.now + ttl }))
  unfolding consume unexpired
  consume-issue ttl g w w' t {code} h =
      rw (issue-ok ttl g w w' h)
        (rw (lookup-insert_same code (record g { expires_at = w.now + ttl }) w.codes) refl)

  pub issue-err :
      (ttl : ℕ) (g : AuthGrant) (w w' : World env.S) {e : String}
      → issue ttl g w ≡ (err e, w')
      → w' ≡ drawing w
  unfolding issue
  issue-err ttl g w w' h = elim (bind-err (put ttl g) (rand_token 32) w w' h) [
    | inl p ↦ drawn_from 32 w w' p
    | inr (fresh, v, p, q) ↦ (unfold put in ground arith)
  ]

  stays_unknown :
      (code other : String) (w : World env.S)
      → Map.lookup code w.codes ≡ none
      → Map.lookup code (consume other w).1.codes ≡ none
  unfolding consume
  stays_unknown code other w h = rw (lookup-delete other code w.codes) (ground arith)

  -- Once a code has been consumed or is unknown, it is unknown until it is issued again.
  Later-unknown :
      (code : String) (w : World env.S) {w' : World env.S}
      → Map.lookup code w.codes ≡ none
      → Later code w w'
      → Map.lookup code w'.codes ≡ none
  Later-unknown code w h here = h
  Later-unknown code w h (issues {u} ttl g fresh r e ne) =
      rw (issue-ok ttl g u _ e)
        (rw lookup-insert (rw (ne_test fresh code ne) (Later-unknown code w h r)))
  Later-unknown code w h (fails {u} ttl g e' r e) =
      rw (issue-err ttl g u _ e) (Later-unknown code w h r)
  Later-unknown code w h (consumes {u} other r) =
      stays_unknown code other u (Later-unknown code w h r)
  Later-unknown code w h (others r e) = rw e (Later-unknown code w h r)

  -- However the operations of concurrent requests interleave, a code that was accepted once is
  -- refused by every later `consume`, unless the same code was issued again in between.
  pub consume-at_most_once :
      (code : String) (w v w' : World env.S) {g : AuthGrant}
      → consume code w ≡ (ok (some g), v)
      → Later code v w'
      → (consume code w').0 ≡ ok none
  consume-at_most_once code w v w' h later =
      refused code w' (
        Later-unknown code v (rw (← ap (λ (r : Result _ × World env.S). r.1) h) (gone code w))
          later)

-- ===== src/Session/Laws.antt =====
-- Laws of the session store of session.go.
use lib_agent_oauth.Prelude.{
  ℕ, ◌+◌, ◌≤◌, String, refl, ltb, if◌then◌else◌, ◌≡◌, ◌≢◌, subst, ◌∙◌, Option, none, some, arith,
  eq_refl, ne_test,
}
use lib_agent_oauth.Map
use lib_agent_oauth.Map.{Map, lookup-insert, lookup-delete_if}
use lib_agent_oauth.Exec.{ok, bind-ok, pure-ok}
use lib_agent_oauth.Env.{Env}
use lib_agent_oauth.Model.{World, PrincipalGrant}
use lib_agent_oauth.Store.{IsLawful}
use lib_agent_oauth.JsonMap
use lib_agent_oauth.JsonMap.{drop_where}
use lib_agent_oauth.JsonMap.Laws.{
  reads, Writes, mutate-ok, get-ok, get-of-reads, reads, after_of, lookup-drop_where,
}
use lib_agent_oauth.JsonMap.Draw.{draw_and_store-ok}
use lib_agent_oauth.Random.Laws.{drawing}
use lib_agent_oauth.Session.{
  SessionRecord, session_codec, sessions_store_key, expired, of_principal, session_of,
  start_session, issue, live, lookup, remove_for_principal,
}

module _ ⦃env : Env⦄ where
  -- The sessions that a state holds.
  abbrev pub Sessions : World env.S → Map SessionRecord → Type 0
  Sessions w m = reads session_codec sessions_store_key w ≡ ok m

  live-some :
      (now : ℕ) (o : Option SessionRecord) {r : SessionRecord}
      → live now o ≡ some r
      → (o ≡ some r) × (now ≤ r.expires)
  live-some now none h = ground arith
  live-some now (some x) h = ground arith

  -- A session that `lookup` accepts is stored and has not expired; looking it up changes nothing.
  pub lookup-ok :
      (token : String) (w w' : World env.S) {r : SessionRecord}
      → lookup token w ≡ (ok (some r), w')
      → (m : Map SessionRecord) × Sessions w m
        × (Map.lookup token m ≡ some r)
        × (w.now ≤ r.expires)
        × (w ≡ w')
  unfolding lookup
  lookup-ok token w w' {r} h =
      let (o, v, p, q) = bind-ok _ (JsonMap.get session_codec sessions_store_key token) w w' h in
      let (value, same') = pure-ok _ v w' q in
      let (m, held, found, same) = get-ok session_codec sessions_store_key token w v p in
      let (stored, fresh) = live-some w.now o value in
      (m, held, found ∙ stored, fresh, same ∙ same')

  module _ (lawful : IsLawful env.store) where
    -- A session that is issued is stored until `ttl` from now, for the identity given; every
    -- expired session is gone, and every other one is kept.
    pub issue-ok :
        (ttl : ℕ) (p : PrincipalGrant) (w w' : World env.S) {token : String}
        → issue ttl p w ≡ (ok token, w')
        → (m m' : Map SessionRecord) × Sessions (drawing w) m
          × Sessions w' m'
          × (Map.lookup token m' ≡ some (session_of w.now ttl p))
          × ((other : String)
              → token ≢ other
              → Map.lookup other m' ≡ Map.keep_unless (expired w.now) (Map.lookup other m))
          × Writes sessions_store_key (drawing w) w'
    unfolding issue
    issue-ok ttl p w w' {token} h =
        let (fresh, _, same, r) =
          draw_and_store-ok session_codec lawful sessions_store_key 32
            (start_session w.now (session_of w.now ttl p)) (λ t. t) w w' h in
        let rec = session_of w.now ttl p in
        let left = Map.delete_if (expired w.now) r.before in
        (
          r.before,
          Map.insert token rec left,
          r.held,
          subst (λ t. Sessions w' (Map.insert t rec left)) same r.holds,
          rw (lookup-insert token token rec left) (rw eq_refl),
          λ other ne.
              rw (lookup-insert token other rec left, ne_test token other ne)
                (lookup-delete_if (expired w.now) other r.before),
          r.writes,
        )

    -- A session that was issued is found with the identity it was issued for until `ttl` has
    -- passed, and is refused from then on.
    pub lookup-issue :
        (ttl : ℕ) (p : PrincipalGrant) (w w' : World env.S) (t : ℕ) {token : String}
        → issue ttl p w ≡ (ok token, w')
        → lookup token (record w' { now = t }) ≡ (
          ok (if ltb (w.now + ttl) t then none else some (session_of w.now ttl p)),
          record w' { now = t },
        )
    unfolding lookup reads
    lookup-issue ttl p w w' t {token} h =
        let (m, m', _, holds, found, _, _) = issue-ok ttl p w w' h in
        rw (get-of-reads session_codec sessions_store_key token (record w' { now = t }) holds)
          (rw found refl)

    pub remove_for_principal-ok :
        (name : String) (w w' : World env.S)
        → name ≢ ""
        → remove_for_principal name w ≡ (ok tt, w')
        → (m m' : Map SessionRecord) × Sessions w m
          × Sessions w' m'
          × ((token : String)
              → Map.lookup token m' ≡ Map.keep_unless (of_principal name) (Map.lookup token m))
          × Writes sessions_store_key w w'
    unfolding remove_for_principal
    remove_for_principal-ok name w w' ne h =
        let r =
          mutate-ok session_codec lawful sessions_store_key (drop_where (of_principal name)) w w'
            (rw (ne_test name "" ne) at h) in
        (
          r.before,
          after_of (drop_where (of_principal name) r.before) r.before,
          r.held,
          r.holds,
          λ token. lookup-drop_where (of_principal name) token r.before,
          r.writes,
        )

-- ===== src/Principal/Revoke.antt =====
-- Laws of RemovePrincipal of principal.go: the stored maps.
use lib_agent_oauth.Prelude.{
  String, ◌≡◌, ◌≢◌, refl, sym, subst, ◌∙◌, Bool, Option, none, some, eq_refl, ne_test, ne_of_test,
}
use lib_agent_oauth.Map
use lib_agent_oauth.Map.{Map, lookup-delete}
use lib_agent_oauth.Exec.{ok, bind-ok, bind-pure-ok, ◌>>◌, pure}
use lib_agent_oauth.Env.{Env}
use lib_agent_oauth.Model.{World}
use lib_agent_oauth.Store.{IsLawful}
use lib_agent_oauth.JsonMap.{mutate}
use lib_agent_oauth.JsonMap.Laws.{mutate-ok, after_of, reads-Writes}
use lib_agent_oauth.Refresh
use lib_agent_oauth.Refresh.Laws.{Tokens}
use lib_agent_oauth.Session
use lib_agent_oauth.Session.Laws.{Sessions}
use lib_agent_oauth.Principal.Codec.{PrincipalRecord, record_codec}
use lib_agent_oauth.Principal.{
  principals_store_key, delete_found, delete_existing, found, remove_principal,
}
use lib_agent_oauth.Principal.Laws.{Principals}

module _ ⦃env : Env⦄ where
  -- What a removal leaves of the three stored maps.
  pub record Removed (name : String) (w w' : World env.S) : Type 0 where
    pub before : Map PrincipalRecord
    pub after : Map PrincipalRecord
    pub held : Principals w before
    pub holds : Principals w' after
    pub gone : Map.lookup name after ≡ none
    pub others : (other : String) → name ≢ other → Map.lookup other after ≡ Map.lookup other before
    pub tokens : Map Refresh.Codec.RefreshGrant
    pub tokens_left : Map Refresh.Codec.RefreshGrant
    pub tokens_held : Tokens w tokens
    pub tokens_hold : Tokens w' tokens_left
    pub revoked :
        (t : String)
        → Map.lookup t tokens_left
          ≡ Map.keep_unless (Refresh.of_principal name) (Map.lookup t tokens)
    pub sessions : Map Session.SessionRecord
    pub sessions_left : Map Session.SessionRecord
    pub sessions_held : Sessions w sessions
    pub sessions_hold : Sessions w' sessions_left
    pub ended :
        (t : String)
        → Map.lookup t sessions_left
          ≡ Map.keep_unless (Session.of_principal name) (Map.lookup t sessions)
    pub codes : w'.codes ≡ w.codes
    pub now : w'.now ≡ w.now

  -- The closure's result, and the map that it leaves.
  deleted :
      (name : String) (m : Map PrincipalRecord) (o : Option PrincipalRecord)
      → Map.lookup name m ≡ o
      → ((delete_found name m o).0 ≡ found o)
        × (Map.lookup name (after_of (delete_found name m o) m) ≡ none)
        × ((other : String)
            → name ≢ other
            → Map.lookup other (after_of (delete_found name m o) m) ≡ Map.lookup other m)
  deleted name m none e = (refl, e, λ other ne. refl)
  deleted name m (some r) e = (
    refl,
    rw (lookup-delete name name m) (rw eq_refl),
    λ other ne. rw (lookup-delete name other m) (rw (ne_test name other ne)),
  )

  -- The three writes of a removal that succeeds.
  remove-steps :
      (name : String) (w w' : World env.S) {removed : Bool}
      → remove_principal name w ≡ (ok removed, w')
      → (v u : World env.S) × (mutate record_codec principals_store_key (delete_existing name) w
          ≡ (ok removed, v))
        × (Refresh.remove_for_principal name v ≡ (ok tt, u))
        × (Session.remove_for_principal name u ≡ (ok tt, w'))
  unfolding remove_principal
  remove-steps name w w' {removed} h =
      let (b, v, p, q) =
        bind-ok _ (mutate record_codec principals_store_key (delete_existing name)) w w' h in
      let (_, u, p', q') =
        bind-ok (λ _. Session.remove_for_principal name >> pure b)
          (Refresh.remove_for_principal name) v w' q in
      let (_, p'', value) = bind-pure-ok (λ _. b) (Session.remove_for_principal name) u w' q' in
      (
        v,
        u,
        subst (λ x. mutate record_codec principals_store_key (delete_existing name) w ≡ (ok x, v))
            value p,
        p',
        p'',
      )

  module _ (lawful : IsLawful env.store) where
    -- A removal that succeeds deletes the principal, every refresh token that was issued under it
    -- and every session of it, and touches no other principal, token, session or code.
    pub remove_principal-ok :
        (name : String) (w w' : World env.S) {removed : Bool}
        → name ≢ ""
        → remove_principal name w ≡ (ok removed, w')
        → (r : Removed name w w') × (removed ≡ found (Map.lookup name r.before))
    remove_principal-ok name w w' ne h =
        let (v, u, p, q, s) = remove-steps name w w' h in
        let a = mutate-ok record_codec lawful principals_store_key (delete_existing name) w v p in
        let (was, gone, others) = deleted name a.before (Map.lookup name a.before) refl in
        let (m, m', held, holds, left, bw) =
          Refresh.Laws.remove_for_principal-ok lawful name v u ne q in
        let (n, n', held', holds', left', cw) =
          Session.Laws.remove_for_principal-ok lawful name u w' ne s in
        (
          record {
            before = a.before;
            after = after_of (delete_existing name a.before) a.before;
            held = a.held;
            holds =
                reads-Writes record_codec principals_store_key cw
                  (ne_of_test Session.sessions_store_key principals_store_key refl)
                ∙ reads-Writes record_codec principals_store_key bw
                    (ne_of_test Refresh.refresh_store_key principals_store_key refl)
                ∙ a.holds;
            gone = gone;
            others = others;
            tokens = m;
            tokens_left = m';
            tokens_held =
                sym (
                  reads-Writes Refresh.Codec.refresh_codec Refresh.refresh_store_key a.writes
                    (ne_of_test principals_store_key Refresh.refresh_store_key refl))
                ∙ held;
            tokens_hold =
                reads-Writes Refresh.Codec.refresh_codec Refresh.refresh_store_key cw
                  (ne_of_test Session.sessions_store_key Refresh.refresh_store_key refl)
                ∙ holds;
            revoked = left;
            sessions = n;
            sessions_left = n';
            sessions_held =
                sym (
                  reads-Writes Session.session_codec Session.sessions_store_key a.writes
                    (ne_of_test principals_store_key Session.sessions_store_key refl))
                ∙ sym (
                    reads-Writes Session.session_codec Session.sessions_store_key bw
                      (ne_of_test Refresh.refresh_store_key Session.sessions_store_key refl))
                ∙ held';
            sessions_hold = holds';
            ended = left';
            codes = cw.codes ∙ bw.codes ∙ a.writes.codes;
            now = cw.now ∙ bw.now ∙ a.writes.now;
          },
          sym a.value ∙ was,
        )

-- ===== src/Refresh/Laws.antt =====
-- Laws of refresh.go.
use lib_agent_oauth.Prelude.{
  ℕ, String, ◌≡◌, ◌≢◌, refl, sym, Option, ap, subst, ◌∙◌, List, none, some, arith, eq_refl, ne_test,
}
use lib_agent_oauth.Map
use lib_agent_oauth.Map.{
  Map, lookup-insert, lookup-insert_same, lookup-delete, lookup-delete_if, lookup-any_value,
}
use lib_agent_oauth.Exec.{ok}
use lib_agent_oauth.Env.{Env, Stored}
use lib_agent_oauth.Encode.{encode64}
use lib_agent_oauth.Model.{World, PrincipalGrant}
use lib_agent_oauth.Store.{IsLawful}
use lib_agent_oauth.JsonMap.{drop_where}
use lib_agent_oauth.JsonMap.Laws.{
  reads, same_map, Writes, mutate-ok, after_of, mutate-unchanged, mutate-saves, lookup-drop_where,
}
use lib_agent_oauth.JsonMap.Draw.{draw_and_store-ok}
use lib_agent_oauth.Random.Laws.{drawing}
use lib_agent_oauth.JsonMap.Keeps.{mutate-Keeps, rand_token-Keeps}
use lib_agent_oauth.Exec.{pure}
use lib_agent_oauth.Exec.Keeps.{Keeps, Keeps-pure, Keeps-bind}
use lib_agent_oauth.Random.{rand_token, read_random}
use lib_agent_oauth.JsonMap.{mutate}
use lib_agent_oauth.Refresh.Codec.{RefreshGrant, refresh_codec}
use lib_agent_oauth.Refresh.{
  refresh_store_key, of_principal, put_grant, issue, remove_for_principal, take_token, exchange,
}

module _ ⦃env : Env⦄ where
  -- The refresh tokens that a state holds.
  abbrev pub Tokens : World env.S → Map RefreshGrant → Type 0
  Tokens w m = reads refresh_codec refresh_store_key w ≡ ok m

  take_token-some :
      (token : String) (m : Map RefreshGrant) (g : RefreshGrant)
      → (take_token token m).0 ≡ some g
      → (Map.lookup token m ≡ some g) × (after_of (take_token token m) m ≡ Map.delete token m)
  take_token-some token m g h = ground arith

  -- A token is issued where the stored tokens can be read and written and randomness does not fail.
  pub issue-succeeds :
      (client_id scope resource : String) (p : PrincipalGrant) (w : World env.S)
      {m : Map RefreshGrant}
      → Tokens w m
      → ((n k : ℕ) → (b : List ℕ) × (env.entropy n k ≡ some b))
      → ((s : env.S) (k : String) (v : Stored) → (env.store.set s k v).0 ≡ ok tt)
      → (token : String) × (w' : World env.S) × (issue client_id scope resource p w
          ≡ (ok token, w'))
  unfolding issue rand_token read_random reads
  issue-succeeds client_id scope resource p w held draws writes =
      let (b, e) = draws w.drawn 32 in
      let g : RefreshGrant = record {
        client_id = client_id;
        scope = scope;
        resource = resource;
        principal = p;
      } in
      let (w', done) =
        mutate-saves refresh_codec refresh_store_key (put_grant (encode64 b) g) (drawing w) held
          refl (λ v. writes w.store refresh_store_key v) in
      (encode64 b, w', rw e (rw done refl))

  module _ (lawful : IsLawful env.store) where
    -- A successful exchange returns the grant of a token that was stored, and exactly that token
    -- is gone afterwards.
    pub exchange-rotates :
        (token : String) (w w' : World env.S) {g : RefreshGrant}
        → exchange token w ≡ (ok (some g), w')
        → (m m' : Map RefreshGrant) × Tokens w m
          × Tokens w' m'
          × (Map.lookup token m ≡ some g)
          × (Map.lookup token m' ≡ none)
          × ((other : String) → token ≢ other → Map.lookup other m' ≡ Map.lookup other m)
          × Writes refresh_store_key w w'
    unfolding exchange
    exchange-rotates token w w' {g} h =
        let r = mutate-ok refresh_codec lawful refresh_store_key (take_token token) w w' h in
        let (found, left) = take_token-some token r.before g r.value in
        (
          r.before,
          Map.delete token r.before,
          r.held,
          r.holds ∙ ap ok left,
          found,
          rw (lookup-delete token token r.before) (rw eq_refl),
          λ other ne. rw (lookup-delete token other r.before) (rw (ne_test token other ne)),
          r.writes,
        )

    -- A token that is not stored is refused, and nothing changes.
    pub exchange-unknown :
        (token : String) (w : World env.S) {m : Map RefreshGrant}
        → Tokens w m
        → Map.lookup token m ≡ none
        → exchange token w ≡ (ok none, w)
    unfolding exchange
    exchange-unknown token w {m} h e =
        mutate-unchanged refresh_codec lawful refresh_store_key (take_token token) w h
          (ground arith)

    -- Once exchanged, a token is refused.
    pub exchange_once :
        (token : String) (w w' : World env.S) {g : RefreshGrant}
        → exchange token w ≡ (ok (some g), w')
        → exchange token w' ≡ (ok none, w')
    exchange_once token w w' h =
        let (m, m', _, held, _, gone, _, _) = exchange-rotates token w w' h in
        exchange-unknown token w' held gone

    -- A token that is issued is stored with its grant, beside the others.
    pub issue-ok :
        (client_id scope resource : String) (p : PrincipalGrant) (w w' : World env.S)
        {token : String}
        → issue client_id scope resource p w ≡ (ok token, w')
        → (m : Map RefreshGrant) × Tokens (drawing w) m
          × Tokens w' (
              Map.insert token
                (record {
                  client_id = client_id;
                  scope = scope;
                  resource = resource;
                  principal = p;
                })
                m)
          × Writes refresh_store_key (drawing w) w'
    unfolding issue
    issue-ok client_id scope resource p w w' {token} h =
        let g : RefreshGrant = record {
          client_id = client_id;
          scope = scope;
          resource = resource;
          principal = p;
        } in
        let (fresh, _, same, r) =
          draw_and_store-ok refresh_codec lawful refresh_store_key 32 (λ t. put_grant t g) (λ t. t)
            w w' h in
        (r.before, r.held, subst (λ t. Tokens w' (Map.insert t g r.before)) same r.holds, r.writes)

    -- A token that was issued can be exchanged, at any time, for exactly the grant it was issued for.
    pub exchange-issue :
        (client_id scope resource : String) (p : PrincipalGrant) (w w' v : World env.S) (t : ℕ)
        {token : String} {o : Option RefreshGrant}
        → issue client_id scope resource p w ≡ (ok token, w')
        → exchange token (record w' { now = t }) ≡ (ok o, v)
        → o
          ≡ some
              (record { client_id = client_id; scope = scope; resource = resource; principal = p })
    unfolding exchange reads
    exchange-issue client_id scope resource p w w' v t {token} h e =
        let (m, _, holds, _) = issue-ok client_id scope resource p w w' h in
        let g : RefreshGrant = record {
          client_id = client_id;
          scope = scope;
          resource = resource;
          principal = p;
        } in
        let r =
          mutate-ok refresh_codec lawful refresh_store_key (take_token token)
            (record w' { now = t }) v e in
        let same : Map.insert token g m ≡ r.before = same_map holds r.held in
        sym r.value
        ∙ ap (λ x. (take_token token x).0) (sym same)
        ∙ rw (take_token, lookup-insert_same token g m) refl

    -- After a principal has been removed, every stored token is another principal's, and the
    -- tokens of other principals are all still there.
    pub remove_for_principal-ok :
        (name : String) (w w' : World env.S)
        → name ≢ ""
        → remove_for_principal name w ≡ (ok tt, w')
        → (m m' : Map RefreshGrant) × Tokens w m
          × Tokens w' m'
          × ((token : String)
              → Map.lookup token m' ≡ Map.keep_unless (of_principal name) (Map.lookup token m))
          × Writes refresh_store_key w w'
    unfolding remove_for_principal
    remove_for_principal-ok name w w' ne h =
        let r =
          mutate-ok refresh_codec lawful refresh_store_key (drop_where (of_principal name)) w w'
            (rw (ne_test name "" ne) at h) in
        (
          r.before,
          after_of (drop_where (of_principal name) r.before) r.before,
          r.held,
          r.holds,
          λ token. lookup-drop_where (of_principal name) token r.before,
          r.writes,
        )

-- Issuing a refresh token leaves alone whatever does not depend on the store and the randomness.
module _ ⦃env : Env⦄ {B : Type 0} (part : World env.S → B)
    (no_store : (w : World env.S) (s : env.S) → part (record w { store = s }) ≡ part w)
    (no_drawn : (w : World env.S) → part (drawing w) ≡ part w) where
  pub issue-Keeps :
      (client_id scope resource : String) (p : PrincipalGrant)
      → Keeps part (issue client_id scope resource p)
  unfolding issue
  issue-Keeps client_id scope resource p =
      Keeps-bind part (rand_token 32) _ (rand_token-Keeps part no_drawn 32) (λ t.
        Keeps-bind part (mutate _ _ _) (λ _. pure t)
          (mutate-Keeps part no_store refresh_codec refresh_store_key _) (λ _. Keeps-pure part t))

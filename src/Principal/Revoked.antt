-- ===== src/Principal/Revoked.antt =====
-- Laws of RemovePrincipal of principal.go: the operations that come after it.
use lib_agent_oauth.Prelude.{
  String, ◌≡◌, ◌≢◌, refl, sym, ap, ◌∙◌, Bool, false, Option, none, some, inl, inr, arith,
  ne_of_test,
}
use lib_agent_oauth.Map
use lib_agent_oauth.Map.{Map}
use lib_agent_oauth.Exec.{ok}
use lib_agent_oauth.Env.{Env}
use lib_agent_oauth.Model.{World, PrincipalGrant}
use lib_agent_oauth.Store.{IsLawful}
use lib_agent_oauth.JsonMap.Laws.{same_map, reads-stored, get-of-reads}
use lib_agent_oauth.Pairing.{pairing_code_store_key, shared_code}
use lib_agent_oauth.Pairing.Laws.{shared_code-frame}
use lib_agent_oauth.Refresh
use lib_agent_oauth.Session
use lib_agent_oauth.Principal.Codec.{PrincipalRecord, record_codec}
use lib_agent_oauth.Principal.{principals_store_key, remove_principal, grant_for}
use lib_agent_oauth.Principal.Laws.{Principals}
use lib_agent_oauth.Principal.Verify.{verify_principal}
use lib_agent_oauth.Principal.Verify.Laws.{verify_principal-exact, Outcome}
use lib_agent_oauth.Principal.Revoke.{remove_principal-ok}

kept :
    {V : Type 0} (p : V → Bool) (o : Option V) {v : V} → Map.keep_unless p o ≡ some v → p v ≡ false
kept p none h = ground arith
kept p (some x) h = ground arith

module _ ⦃env : Env⦄ where
  -- No refresh token, session or entered code establishes the principal, and nothing is known of it.
  pub record IsRevoked (name : String) (w : World env.S) : Type 0 where
    pub no_refresh :
        (token : String) (v : World env.S) (g : Refresh.Codec.RefreshGrant)
        → Refresh.exchange token w ≡ (ok (some g), v)
        → g.principal.name ≢ name
    pub no_session :
        (token : String) (v : World env.S) (r : Session.SessionRecord)
        → Session.lookup token w ≡ (ok (some r), v)
        → r.principal ≢ name
    pub no_code :
        (input : String) (v : World env.S) (g : PrincipalGrant)
        → verify_principal input w ≡ (ok (some g), v)
        → g.name ≢ name
    pub no_grant : grant_for name w ≡ (ok none, w)

  -- The identity of an entered code is stored under its name, or anonymous.
  Outcome-name :
      (input shared name : String) (m : Map PrincipalRecord) (g : PrincipalGrant)
      → name ≢ ""
      → Map.lookup name m ≡ none
      → Outcome input shared m (some g)
      → g.name ≢ name
  Outcome-name input shared name m g ne gone (inl (e, _)) same = ground arith
  Outcome-name input shared name m g ne gone (inr (inl (n, r, _, found, _, e))) same =
      let same_name : n ≡ name = ground arith in cc (gone, found, same_name)
  Outcome-name input shared name m g ne gone (inr (inr (e, _, _))) same = cc

  grant-gone :
      (name : String) (w : World env.S) {m : Map PrincipalRecord}
      → Principals w m
      → Map.lookup name m ≡ none
      → grant_for name w ≡ (ok none, w)
  unfolding grant_for
  grant-gone name w held gone =
      rw (get-of-reads record_codec principals_store_key name w held) (rw gone)

  module _ (lawful : IsLawful env.store) where
    -- Asking for the shared code leaves the principals alone.
    kept-Principals :
        (w v : World env.S) {shared : String} {m : Map PrincipalRecord}
        → shared_code w ≡ (ok shared, v)
        → Principals v m
        → Principals w m
    kept-Principals w v h held =
        sym (
          reads-stored record_codec principals_store_key w v (
            shared_code-frame lawful w v h principals_store_key
              (ne_of_test pairing_code_store_key principals_store_key refl)))
        ∙ held

    -- After a removal that succeeds no stored refresh token, no session and no entered code
    -- establishes the principal, and its grant is gone. The name must not be empty.
    pub remove_principal-IsRevoked :
        (name : String) (w w' : World env.S) {removed : Bool}
        → name ≢ ""
        → remove_principal name w ≡ (ok removed, w')
        → IsRevoked name w'
    remove_principal-IsRevoked name w w' ne h =
        let (r, _) = remove_principal-ok lawful name w w' ne h in
        record {
          no_refresh = λ token v g e.
              let (m, _, held, _, found, _, _, _) =
                Refresh.Laws.exchange-rotates lawful token w' v e in
              ne_of_test g.principal.name name (
                kept (Refresh.of_principal name) (Map.lookup token r.tokens) (
                  sym (r.revoked token)
                  ∙ ap (Map.lookup token) (same_map r.tokens_hold held)
                  ∙ found));
          no_session = λ token v s e.
              let (m, held, found, _, _) = Session.Laws.lookup-ok token w' v e in
              ne_of_test s.principal name (
                kept (Session.of_principal name) (Map.lookup token r.sessions) (
                  sym (r.ended token)
                  ∙ ap (Map.lookup token) (same_map r.sessions_hold held)
                  ∙ found));
          no_code = λ input v g e.
              let (shared, m, code_is, held, outcome) = verify_principal-exact input w' v e in
              Outcome-name input shared name m g ne
                (ap (Map.lookup name) (sym (same_map r.holds (kept-Principals w' v code_is held)))
                  ∙ r.gone)
                outcome;
          no_grant = grant-gone name w' r.holds r.gone;
        }

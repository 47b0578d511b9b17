-- ===== src/Identity/Laws.antt =====
-- What a browser session stands for.
use lib_agent_oauth.Prelude.{
  Bool, ap, ℕ, ◌≤◌, String, ◌≡◌, ◌≢◌, refl, sym, subst, ◌∙◌, ◌⊎◌, inl, inr, true, false, Bool-cases,
  Option, none, some, ◌==◌,
}
use lib_agent_oauth.Map
use lib_agent_oauth.Map.{Map}
use lib_agent_oauth.Exec.{ok, bind-ok, bind-pure-ok, pure-ok}
use lib_agent_oauth.Env.{Env}
use lib_agent_oauth.Model.{World, PrincipalGrant, anonymous}
use lib_agent_oauth.JsonMap
use lib_agent_oauth.JsonMap.Laws.{get-ok}
use lib_agent_oauth.Http.{Request}
use lib_agent_oauth.Session
use lib_agent_oauth.Session.{SessionRecord}
use lib_agent_oauth.Session.Laws.{Sessions, lookup-ok}
use lib_agent_oauth.Principal.Codec.{PrincipalRecord, record_codec}
use lib_agent_oauth.Principal.{grant_for, grant_of, principals_store_key}
use lib_agent_oauth.Principal.Laws.{Principals}
use lib_agent_oauth.Store.{IsLawful}
use lib_agent_oauth.Principal.{remove_principal}
use lib_agent_oauth.Principal.Revoked.{IsRevoked, remove_principal-IsRevoked}
use lib_agent_oauth.Server.{Server}
use lib_agent_oauth.Identity.{identity_of, cookie_identity, enabled_identity, session_principal}

module _ ⦃env : Env⦄ where
  -- A session's identity: the request's cookie names a session that is stored and live, and it is
  -- the anonymous operator's, or its principal is stored now, with this binding.
  pub record Resolved (r : Request) (w : World env.S) (p : PrincipalGrant) : Type 0 where
    pub token : String
    pub cookie : r.session_cookie ≡ some token
    pub session : SessionRecord
    pub sessions : Map SessionRecord
    pub held : Sessions w sessions
    pub stored : Map.lookup token sessions ≡ some session
    pub looked : Session.lookup token w ≡ (ok (some session), w)
    pub live : w.now ≤ session.expires
    pub identity :
        ((session.anonymous ≡ true) × (p ≡ anonymous))
        ⊎ ((m : Map PrincipalRecord) × (rec : PrincipalRecord) × Principals w m
            × (Map.lookup session.principal m ≡ some rec)
            × (p ≡ record { name = session.principal; binding = rec.binding }))

  some_eq : {a b : PrincipalGrant} → some a ≡ some b → a ≡ b
  some_eq h = cc

  none_some : {a : PrincipalGrant} → ◌≢◌ {A = Option PrincipalGrant} none (some a)
  none_some h = cc

  granted :
      (name : String) (o : Option PrincipalRecord) {p : PrincipalGrant}
      → grant_of name o ≡ some p
      → (rec : PrincipalRecord) × (o ≡ some rec)
        × (p ≡ record { name = name; binding = rec.binding })
  granted name none h = cc
  granted name (some rec) {p} h = (rec, refl, some_eq (sym h))

  grant_for-ok :
      (name : String) (w w' : World env.S) {p : PrincipalGrant}
      → grant_for name w ≡ (ok (some p), w')
      → ((m : Map PrincipalRecord) × (rec : PrincipalRecord) × Principals w m
          × (Map.lookup name m ≡ some rec)
          × (p ≡ record { name = name; binding = rec.binding }))
        × (w ≡ w')
  unfolding grant_for
  grant_for-ok name w w' h =
      let (o, e, value) =
        bind-pure-ok (grant_of name) (JsonMap.get record_codec principals_store_key name) w w' h in
      let (m, held, found, same) = get-ok record_codec principals_store_key name w w' e in
      let (rec, is, p) = granted name o value in ((m, rec, held, found ∙ is, p), same)

  identity-ok :
      (s : SessionRecord) (w w' : World env.S) {p : PrincipalGrant}
      → identity_of (some s) w ≡ (ok (some p), w')
      → (((s.anonymous ≡ true) × (p ≡ anonymous))
          ⊎ ((m : Map PrincipalRecord) × (rec : PrincipalRecord) × Principals w m
              × (Map.lookup s.principal m ≡ some rec)
              × (p ≡ record { name = s.principal; binding = rec.binding })))
        × (w ≡ w')
  unfolding identity_of
  identity-ok s w w' h = elim (Bool-cases s.anonymous) [
    | inl e ↦
        let (value, same) = pure-ok (some anonymous) w w' (rw e at h) in
        (inl (e, some_eq (sym value)), same)
    | inr e ↦ let (found, same) = grant_for-ok s.principal w w' (rw e at h) in (inr found, same)
  ]

  looked_up :
      (token : String) (w w' : World env.S) (o : Option SessionRecord) {p : PrincipalGrant}
      (v : World env.S)
      → Session.lookup token w ≡ (ok o, v)
      → identity_of o v ≡ (ok (some p), w')
      → (s : SessionRecord) × (o ≡ some s) × (identity_of (some s) v ≡ (ok (some p), w'))
  unfolding identity_of
  looked_up token w w' none v e h = absurd (none_some (pure-ok none v w' h).0)
  looked_up token w w' (some s) v e h = (s, refl, h)

  -- A session that stands for an identity is stored and live, and the identity is that of the
  -- principal as it is stored now, or of the anonymous operator; asking changes nothing.
  pub session_principal-Resolved :
      (s : Server) (r : Request) (w w' : World env.S) {p : PrincipalGrant}
      → session_principal s r w ≡ (ok (some p), w')
      → Resolved r w p × (w ≡ w')
  unfolding session_principal
  session_principal-Resolved s r w w' {p} h = enabled s.session_ttl r.session_cookie refl h
    where
      entered :
          (token : String)
          → r.session_cookie ≡ some token
          → (token == "") ≡ false
          → cookie_identity (some token) w ≡ (ok (some p), w')
          → Resolved r w p × (w ≡ w')
      entered token cookie named h =
          let (o, v, e, rest) = bind-ok identity_of (Session.lookup token) w w' (rw named at h) in
          let (rec, is, rest') = looked_up token w w' o v e rest in
          let e' = subst (λ x. Session.lookup token w ≡ (ok x, v)) is e in
          let (m, held, found, live, same) = lookup-ok token w v e' in
          let (identity, same') = identity-ok rec v w' rest' in
          (
            record {
              token = token;
              cookie = cookie;
              session = rec;
              sessions = m;
              held = held;
              stored = found;
              looked = subst (λ u. Session.lookup token w ≡ (ok (some rec), u)) (sym same) e';
              live = live;
              identity =
                  subst
                    (λ u.
                      ((rec.anonymous ≡ true) × (p ≡ anonymous))
                      ⊎ ((m : Map PrincipalRecord) × (x : PrincipalRecord) × Principals u m
                          × (Map.lookup rec.principal m ≡ some x)
                          × (p ≡ record { name = rec.principal; binding = x.binding })))
                    (sym same) identity;
            },
            same ∙ same',
          )

      enabled :
          (ttl : Option ℕ) (cookie : Option String)
          → r.session_cookie ≡ cookie
          → enabled_identity ttl r w ≡ (ok (some p), w')
          → Resolved r w p × (w ≡ w')
      enabled none cookie e h = absurd (none_some (pure-ok none w w' h).0)
      enabled (some ttl) none e h = absurd (none_some (pure-ok none w w' (rw e at h)).0)
      enabled (some ttl) (some token) e h = elim (Bool-cases (token == "")) [
        | inl blank ↦ absurd (none_some (pure-ok none w w' (rw (e, blank) at h)).0)
        | inr named ↦ entered token e named (rw e at h)
      ]

  -- Where a principal is revoked, no browser session stands for it; its name must not be empty.
  pub session_principal-revoked :
      (s : Server) (r : Request) (name : String) (w w' : World env.S) {p : PrincipalGrant}
      → name ≢ ""
      → IsRevoked name w
      → session_principal s r w ≡ (ok (some p), w')
      → p.name ≢ name
  session_principal-revoked s r name w w' {p} named revoked h same =
      let (is, _) = session_principal-Resolved s r w w' h in
      elim is.identity [
        | inl (_, e) ↦ named (sym same ∙ ap (λ (x : PrincipalGrant). x.name) e)
        | inr (_, _, _, _, e) ↦
            revoked.no_session is.token w is.session is.looked
              (sym (ap (λ (x : PrincipalGrant). x.name) e) ∙ same)
      ]

  module _ (lawful : IsLawful env.store) where
    -- After a removal that succeeds, of a name that is not empty, no request's session stands for the
    -- principal.
    pub session_principal-removed :
        (s : Server) (r : Request) (name : String) (w v w' : World env.S) {removed : Bool}
        {p : PrincipalGrant}
        → name ≢ ""
        → remove_principal name w ≡ (ok removed, v)
        → session_principal s r v ≡ (ok (some p), w')
        → p.name ≢ name
    session_principal-removed s r name w v w' named gone h =
        session_principal-revoked s r name v w' named
          (remove_principal-IsRevoked lawful name w v named gone) h

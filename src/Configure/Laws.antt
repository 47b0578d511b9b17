-- ===== src/Configure/Laws.antt =====
-- Laws of `New` of server.go.
use lib_agent_oauth.Prelude.{
  ℕ, ◌<◌, ◌≤◌, String, ◌≡◌, ◌≢◌, refl, sym, ap, subst, inl, inr, Bool, true, false, Bool-cases, not,
  Option, none, some, List, [], ◌∷◌, ◌==◌, length, drop, eqb, arith,
}
use lib_agent_oauth.Text.{trim_space, trim_slash}
use lib_agent_oauth.Exec.{Result, ok, err, bind-ok, pure-ok, lift}
use lib_agent_oauth.Env.{Env}
use lib_agent_oauth.Model.{World}
use lib_agent_oauth.Store.{IsLawful}
use lib_agent_oauth.Enrollment.{Enrollment}
use lib_agent_oauth.Enrollment.Laws.{IsUsable, validate-IsUsable}
use lib_agent_oauth.Jwt.{hs256, ed_dsa, hmac_key, private_key, public_key}
use lib_agent_oauth.Token.{Issuer}
use lib_agent_oauth.Keys.{
  new_key_from_seed, load_or_create_hmac_key, load_or_create_ed25519, new_issuer,
  new_ed25519_issuer,
}
use lib_agent_oauth.Keys.Laws.{
  FillsBuffers, load_or_create_hmac_key-again, load_or_create_ed25519-again,
}
use lib_agent_oauth.Server.{Server, Audiences, audiences, scopes_or_default}
use lib_agent_oauth.Server.Laws.{IsAudiences, audiences-IsAudiences}
use lib_agent_oauth.Configure.{
  Duration, nanoseconds, negative, Config, ttl_or_default, session_lifetime, validate_enrollment,
  configured_issuer, new_checked, new_server,
}

-- An issuer can sign: with an HMAC key of at least 32 bytes that also verifies, or with the Ed25519
-- key of a seed, whose public part verifies.
pub data CanSign ⦃env : Env⦄ (i : Issuer) : Bool → Type 0 where
  symmetric :
      (key : List ℕ)
      → i.method ≡ hs256
      → i.sign_key ≡ some (hmac_key key)
      → i.verify_key ≡ hmac_key key
      → 32 ≤ length key
      → CanSign i false
  asymmetric :
      (seed : List ℕ)
      → i.method ≡ ed_dsa
      → i.sign_key ≡ some (private_key (new_key_from_seed seed))
      → i.verify_key ≡ public_key (drop 32 (new_key_from_seed seed))
      → length seed ≡ 32
      → CanSign i true

-- What a server is built with.
pub record IsConfigured ⦃env : Env⦄ (c : Config) (s : Server) : Type 0 where
  pub has_audiences : IsAudiences s.audiences
  pub default : s.issuer.audience ≡ s.audiences.resource
  pub issuer_url : s.issuer.issuer ≡ s.public_url
  pub can_sign : CanSign s.issuer c.asymmetric
  pub lives : 0 < s.issuer.ttl
  pub has_scope : s.scopes ≢ []
  pub usable : (e : Enrollment) → s.enrollment ≡ some e → IsUsable e
  pub session : (ttl : ℕ) → s.session_ttl ≡ some ttl → 0 < ttl

ttl-positive : (ttl : Duration) → 0 < ttl_or_default ttl
ttl-positive (negative n) = omega arith
ttl-positive (nanoseconds ttl) = elim (Bool-cases (eqb ttl 0)) [
  | inl e ↦ rw e (omega arith)
  | inr e ↦ rw e (ground arith)
]

session-positive : (ttl : Duration) (t : ℕ) → session_lifetime ttl ≡ some t → 0 < t
session-positive (negative n) t h = cc
session-positive (nanoseconds ttl) t h = elim (Bool-cases (eqb ttl 0)) [
  | inl e ↦ cc (rw e at h)
  | inr e ↦ subst (λ n. 0 < n) (some_eq (rw e at h)) (ground arith)
]
  where
    some_eq : {a b : ℕ} → some a ≡ some b → a ≡ b
    some_eq e = cc

scopes-some : (l : List String) → scopes_or_default l ≢ []
unfolding scopes_or_default
scopes-some [] h = cc
scopes-some (x ∷ l) h = cc

validated :
    (o : Option Enrollment) (e : Enrollment)
    → validate_enrollment o ≡ ok tt
    → o ≡ some e
    → IsUsable e
validated none e v h = cc
validated (some x) e v h = subst IsUsable (some_eq h) (validate-IsUsable x v)
  where
    some_eq : {a b : Enrollment} → some a ≡ some b → a ≡ b
    some_eq e = cc

module _ ⦃env : Env⦄ (lawful : IsLawful env.store) (fills : FillsBuffers) where
  -- What an issuer has been given.
  record IsIssuer (url audience : String) (ttl : ℕ) (b : Bool) (i : Issuer) : Type 0 where
    its_url : i.issuer ≡ url
    its_audience : i.audience ≡ audience
    its_ttl : i.ttl ≡ ttl
    signs : CanSign i b

  issuer-IsIssuer :
      (b : Bool) (url audience : String) (ttl : ℕ) (w w' : World env.S) {i : Issuer}
      → configured_issuer b url audience ttl w ≡ (ok i, w')
      → IsIssuer url audience ttl b i
  unfolding new_issuer new_ed25519_issuer
  issuer-IsIssuer false url audience ttl w w' {i} h =
      let (key, v, p, q) = bind-ok _ load_or_create_hmac_key w w' h in
      let (is, _) = pure-ok _ v w' q in
      let (long, _) = load_or_create_hmac_key-again lawful fills w v v key p refl in
      subst (IsIssuer url audience ttl false) is (record {
        its_url = refl;
        its_audience = refl;
        its_ttl = refl;
        signs = symmetric key refl refl refl long;
      })
  issuer-IsIssuer true url audience ttl w w' {i} h =
      let (key, v, p, q) = bind-ok _ load_or_create_ed25519 w w' h in
      let (is, _) = pure-ok _ v w' q in
      let ((seed, size, same), _) = load_or_create_ed25519-again lawful fills w v v key p refl in
      subst (IsIssuer url audience ttl true) is (record {
        its_url = refl;
        its_audience = refl;
        its_ttl = refl;
        signs =
            asymmetric seed refl (ap (λ k. some (private_key k)) same)
              (ap (λ k. public_key (drop 32 k)) same) size;
      })

  checked-IsConfigured :
      (c : Config) (a : Audiences) (w w' : World env.S) {s : Server}
      → IsAudiences a
      → new_checked c a w ≡ (ok s, w')
      → IsConfigured c s
  unfolding new_checked
  checked-IsConfigured c a w w' {s} good h =
      let (_, v, p, q) = bind-ok _ (lift (validate_enrollment c.enrollment)) w w' h in
      let (issuer, u, p', q') =
        bind-ok _
          (configured_issuer c.asymmetric (trim_slash c.public_url) a.resource
            (ttl_or_default c.token_ttl))
          v w' q in
      let (is, _) = pure-ok _ u w' q' in
      let i =
        issuer-IsIssuer c.asymmetric (trim_slash c.public_url) a.resource
          (ttl_or_default c.token_ttl) v u p' in
      subst (IsConfigured c) is (record {
        has_audiences = good;
        default = i.its_audience;
        issuer_url = i.its_url;
        can_sign = i.signs;
        lives = subst (λ n. 0 < n) (sym i.its_ttl) (ttl-positive c.token_ttl);
        has_scope = scopes-some c.scopes;
        usable =
            λ e. validated c.enrollment e (ap (λ (r : Result (Unit {0}) × World env.S). r.0) p);
        session = session-positive c.session_ttl;
      })

  -- A server that `New` builds, over a store that keeps what is written and with randomness that
  -- fills its buffers: its audiences are well-formed, its issuer signs for the public URL and the
  -- default audience with a key of full length, tokens and sessions have a lifetime, there is a
  -- scope, and the enrollment is usable.
  pub new_server-IsConfigured :
      (c : Config) (w w' : World env.S) (s : Server)
      → new_server c w ≡ (ok s, w')
      → IsConfigured c s
  unfolding new_server
  new_server-IsConfigured c w w' s h = elim (Bool-cases (not c.has_store)) [
    | inl bad ↦ absurd (failed (rw bad at h))
    | inr stored ↦ elim (Bool-cases (trim_space c.public_url == "")) [
      | inl blank ↦ absurd (failed (rw (stored, blank) at h))
      | inr url ↦
          checked-IsConfigured c (audiences c.public_url c.resource c.resources) w w'
            (audiences-IsAudiences c.public_url c.resource c.resources) (rw (stored, url) at h)
    ]
  ]
    where
      failed : {e : String} → ◌≢◌ {A = Result Server × World env.S} (err e, w) (ok s, w')
      failed {e} q =
          let bad : Result.err e ≡ ok s = ap (λ (r : Result Server × World env.S). r.0) q in cc

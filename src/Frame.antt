-- ===== src/Frame.antt =====
-- Which parts of the state the operations on the stored maps leave alone: those that depend on
-- neither the secret store, nor the number of random reads, nor the events.
use lib_agent_oauth.Prelude.{
  ℕ, suc, String, ◌≡◌, refl, ap, sym, ◌∙◌, Bool, true, false, Option, none, some, List, ◌∷◌, ◌==◌,
  if◌then◌else◌,
}
use lib_agent_oauth.Map.{Map}
use lib_agent_oauth.Exec.{Exec, Result, ok, err, pure}
use lib_agent_oauth.Exec.Keeps.{Keeps, Keeps-pure, Keeps-if, Keeps-bind}
use lib_agent_oauth.Env.{Env, Stored, plain}
use lib_agent_oauth.Model.{World, PrincipalGrant, AuthGrant, Event}
use lib_agent_oauth.JsonMap
use lib_agent_oauth.JsonMap.{store_get, store_set, load, mutate}
use lib_agent_oauth.JsonMap.Keeps.{
  store_get-Keeps, store_set-Keeps, load-Keeps, get-Keeps, mutate-Keeps, rand_token-Keeps,
}
use lib_agent_oauth.Random.{read_random, rand_token}
use lib_agent_oauth.Clients
use lib_agent_oauth.Clients.{client_codec, clients_store_key}
use lib_agent_oauth.Pairing.{
  generate_pairing_code, rotate, stored_code, shared_code, pairing_code_store_key, content,
}
use lib_agent_oauth.Principal.Codec.{record_codec, PrincipalRecord}
use lib_agent_oauth.Principal.{
  principals_store_key, mutate_existing, merge_principal_binding, grant_for,
}
use lib_agent_oauth.Principal.Verify.{candidates, verify_principal}
use lib_agent_oauth.Session
use lib_agent_oauth.Session.{session_codec, sessions_store_key, SessionRecord}
use lib_agent_oauth.Server.{Server, event}
use lib_agent_oauth.Http.{Request, Values}
use lib_agent_oauth.Identity.{
  identity_of, cookie_identity, enabled_identity, session_principal, announce, start_with,
  maybe_start_session, code_entered,
}

module _ ⦃env : Env⦄ where
  pub record IsFrame {B : Type 0} (part : World env.S → B) : Type 0 where
    pub no_store : (w : World env.S) (s : env.S) → part (record w { store = s }) ≡ part w
    pub no_drawn : (w : World env.S) → part (record w { drawn = suc w.drawn }) ≡ part w
    pub no_events : (w : World env.S) (l : List Event) → part (record w { events = l }) ≡ part w

  -- The codes and the time.
  abbrev pub codes_and_now : World env.S → Map AuthGrant × ℕ
  codes_and_now w = (w.codes, w.now)

  pub codes_and_now-IsFrame : IsFrame codes_and_now
  codes_and_now-IsFrame = record {
    no_store = λ w s. refl;
    no_drawn = λ w. refl;
    no_events = λ w l. refl;
  }

-- What a run of an action that keeps `part` has left of it.
pub kept :
    {W A B : Type 0} {part : W → B} {m : Exec W A} {w w' : W} {r : Result A}
    → Keeps part m
    → m w ≡ (r, w')
    → part w' ≡ part w
kept {W} {A} {B} {part} {m} {w} {w'} {r} k h = ap (λ (x : Result A × W). part x.1) (sym h) ∙ k.at w

module _ ⦃env : Env⦄ {B : Type 0} (part : World env.S → B) (frame : IsFrame part) where
  read_random-Keeps : (n : ℕ) → Keeps part (read_random n)
  unfolding read_random
  read_random-Keeps n = record { at = frame.no_drawn }

  pub generate_pairing_code-Keeps : Keeps part generate_pairing_code
  unfolding generate_pairing_code
  generate_pairing_code-Keeps =
      Keeps-bind part (read_random 16) _ (read_random-Keeps 16) (λ b. Keeps-pure part _)

  pub rotate-Keeps : Keeps part rotate
  unfolding rotate
  rotate-Keeps = Keeps-bind part generate_pairing_code _ generate_pairing_code-Keeps (λ c.
      Keeps-bind part (store_set pairing_code_store_key (plain c)) (λ _. pure c)
        (store_set-Keeps part frame.no_store pairing_code_store_key (plain c))
        (λ _. Keeps-pure part c))

  stored_code-Keeps : (o : Option Stored) → Keeps part (stored_code o)
  stored_code-Keeps none = rotate-Keeps
  stored_code-Keeps (some v) = Keeps-pure part (content v)

  pub shared_code-Keeps : Keeps part shared_code
  unfolding shared_code
  shared_code-Keeps =
      Keeps-bind part (store_get pairing_code_store_key) stored_code
        (store_get-Keeps part frame.no_store pairing_code_store_key) stored_code-Keeps

  pub verify_principal-Keeps : (input : String) → Keeps part (verify_principal input)
  unfolding verify_principal candidates
  verify_principal-Keeps input =
      Keeps-bind part candidates _
        (Keeps-bind part shared_code _ shared_code-Keeps (λ c.
          Keeps-bind part (load record_codec principals_store_key) _
            (load-Keeps part frame.no_store record_codec principals_store_key)
            (λ m. Keeps-pure part _)))
        (λ cs. Keeps-pure part _)

  pub get_client-Keeps : (id : String) → Keeps part (Clients.get id)
  unfolding Clients.get
  get_client-Keeps id = get-Keeps part frame.no_store client_codec clients_store_key id

  pub register-Keeps :
      (uris : List String) (name : String) → Keeps part (Clients.register uris name)
  unfolding Clients.register
  register-Keeps uris name =
      Keeps-bind part (rand_token 16) _ (rand_token-Keeps part frame.no_drawn 16) (λ t.
        Keeps-bind part (mutate _ _ _) (λ _. pure _)
          (mutate-Keeps part frame.no_store client_codec clients_store_key _)
          (λ _. Keeps-pure part _))

  pub grant_for-Keeps : (name : String) → Keeps part (grant_for name)
  unfolding grant_for
  grant_for-Keeps name =
      Keeps-bind part (JsonMap.get record_codec principals_store_key name) _
        (get-Keeps part frame.no_store record_codec principals_store_key name)
        (λ r. Keeps-pure part _)

  identity_of-Keeps : (o : Option SessionRecord) → Keeps part (identity_of o)
  unfolding identity_of
  identity_of-Keeps none = Keeps-pure part none
  identity_of-Keeps (some r) =
      Keeps-if part r.anonymous _ (grant_for r.principal) (Keeps-pure part _)
        (grant_for-Keeps r.principal)

  lookup-Keeps : (token : String) → Keeps part (Session.lookup token)
  unfolding Session.lookup
  lookup-Keeps token = record {
    at = λ w.
        (Keeps-bind part (JsonMap.get session_codec sessions_store_key token) _
            (get-Keeps part frame.no_store session_codec sessions_store_key token)
            (λ o. Keeps-pure part _)).at
          w;
  }

  cookie_identity-Keeps : (o : Option String) → Keeps part (cookie_identity o)
  cookie_identity-Keeps none = Keeps-pure part none
  cookie_identity-Keeps (some token) =
      Keeps-if part (token == "") _ _ (Keeps-pure part none)
        (Keeps-bind part (Session.lookup token) identity_of (lookup-Keeps token) identity_of-Keeps)

  pub session_principal-Keeps : (s : Server) (r : Request) → Keeps part (session_principal s r)
  unfolding session_principal
  session_principal-Keeps s r = enabled s.session_ttl
    where
      enabled : (o : Option ℕ) → Keeps part (enabled_identity o r)
      enabled none = Keeps-pure part none
      enabled (some ttl) = cookie_identity-Keeps r.session_cookie

  pub mutate_existing-Keeps :
      (name : String) (f : PrincipalRecord → PrincipalRecord) → Keeps part (mutate_existing name f)
  unfolding mutate_existing
  mutate_existing-Keeps name f =
      mutate-Keeps part frame.no_store record_codec principals_store_key _

  pub merge_principal_binding-Keeps :
      (name : String) (patch : Map String) → Keeps part (merge_principal_binding name patch)
  unfolding merge_principal_binding
  merge_principal_binding-Keeps name patch =
      Keeps-bind part (mutate_existing name _) _ (mutate_existing-Keeps name _)
        (λ r. Keeps-pure part _)

  pub event-keeps : (s : Server) (e : Event) (w : World env.S) → part (event s e w) ≡ part w
  unfolding event
  event-keeps s e w = observed s.observed
    where
      observed : (b : Bool) → part (if b then record w { events = e ∷ w.events } else w) ≡ part w
      observed true = frame.no_events w _
      observed false = refl

  issue_session-Keeps : (ttl : ℕ) (p : PrincipalGrant) → Keeps part (Session.issue ttl p)
  unfolding Session.issue
  issue_session-Keeps ttl p = record {
    at = λ w.
        (Keeps-bind part (rand_token 32) _ (rand_token-Keeps part frame.no_drawn 32) (λ t.
            Keeps-bind part (mutate _ _ _) (λ _. pure t)
              (mutate-Keeps part frame.no_store session_codec sessions_store_key _)
              (λ _. Keeps-pure part t))).at
          w;
  }

  announce-keeps :
      (s : Server) (ttl : ℕ) (p : PrincipalGrant) (r : Result String) (w : World env.S)
      → part (announce s ttl p r w).1 ≡ part w
  announce-keeps s ttl p (ok token) w = event-keeps s _ w
  announce-keeps s ttl p (err e) w = refl

  start_with-keeps :
      (o : Option ℕ) (s : Server) (p : PrincipalGrant) (w : World env.S)
      → part (start_with o s p w).1 ≡ part w
  start_with-keeps none s p w = refl
  start_with-keeps (some ttl) s p w = announce-keeps s ttl p _ _ ∙ (issue_session-Keeps ttl p).at w

  pub maybe_start_session-keeps :
      (s : Server) (form : Values) (p : PrincipalGrant) (w : World env.S)
      → part (maybe_start_session s form p w).1 ≡ part w
  unfolding maybe_start_session
  maybe_start_session-keeps s form p w = entered (code_entered form)
    where
      entered :
          (b : Bool) → part (if b then start_with s.session_ttl s p w else (none, w)).1 ≡ part w
      entered true = start_with-keeps s.session_ttl s p w
      entered false = refl

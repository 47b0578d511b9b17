-- ===== src/Register/Laws.antt =====
-- Laws of register.go.
use lib_agent_oauth.Prelude.{
  String, ◌≡◌, ◌≢◌, refl, sym, ap, subst, ◌∙◌, true, false, Bool-cases, some, List, [], ◌∷◌, inl,
  inr, arith, ◌==◌, eq_of_test, ne_of_test, contains,
}
use lib_agent_oauth.Map
use lib_agent_oauth.Map.{Map}
use lib_agent_oauth.Env.{Env}
use lib_agent_oauth.Model.{World, is_empty, Event}
use lib_agent_oauth.Store.{IsLawful}
use lib_agent_oauth.JsonMap.Laws.{reads, same_map, reads-stored}
use lib_agent_oauth.Http.{Reply, registration}
use lib_agent_oauth.Http.Laws.{on-cases}
use lib_agent_oauth.Clients
use lib_agent_oauth.Clients.{Client, client_codec, clients_store_key}
use lib_agent_oauth.Clients.Laws.{Clients, client_of, get-register}
use lib_agent_oauth.Server.{Server, event}
use lib_agent_oauth.Grant.Issue.{reply_of, state_of}
use lib_agent_oauth.Register.{
  RegisterRequest, valid_redirect_uri, all_valid, client_event, register_client, register_body,
  handle_register,
}

module _ ⦃env : Env⦄ where
  -- The loop's test holds of every URI.
  all_valid-contains :
      (l : List String) (uri : String)
      → all_valid l ≡ true
      → contains l uri ≡ true
      → valid_redirect_uri uri ≡ true
  unfolding all_valid
  all_valid-contains [] uri h c = cc
  all_valid-contains (x ∷ l) uri h c = elim (Bool-cases (x == uri)) [
    | inl e ↦ subst (λ u. valid_redirect_uri u ≡ true) (eq_of_test x uri e) (ground arith)
    | inr e ↦ all_valid-contains l uri (ground arith) (rw e at c)
  ]

  event-store : (s : Server) (e : Event) (w : World env.S) → (event s e w).store ≡ w.store
  unfolding event
  event-store s e w = ground arith

  event-Clients :
      (s : Server) (e : Event) (w : World env.S)
      → reads client_codec clients_store_key (event s e w) ≡ reads client_codec clients_store_key w
  event-Clients s e w =
      reads-stored client_codec clients_store_key w (event s e w)
        (ap (λ x. env.store.get x clients_store_key) (event-store s e w))

  -- What a registration that is answered with 201 stands on: the client has the URIs and the name
  -- of the request, every URI is valid, it is found under its id, and the other clients are kept.
  pub record Registered (req : RegisterRequest) (w : World env.S) (rep : Reply) (w' : World env.S)
      : Type 0 where
    pub client : Client
    pub asked : client ≡ client_of req.redirect_uris req.client_name client.id
    pub body : rep.body ≡ registration client.id client.redirect_uris client.name
    pub some_uri : is_empty req.redirect_uris ≡ false
    pub valid :
        (uri : String) → contains req.redirect_uris uri ≡ true → valid_redirect_uri uri ≡ true
    pub before : Map Client
    pub after : Map Client
    pub held : Clients w before
    pub holds : Clients w' after
    pub found : Map.lookup client.id after ≡ some client
    pub others :
        (other : String) → client.id ≢ other → Map.lookup other after ≡ Map.lookup other before

  some_eq : {a b : Client} → some a ≡ some b → a ≡ b
  some_eq h = cc

  not_created : {n : _} {a b : Reply} → a.status ≡ n → n ≢ 201 → a ≡ b → b.status ≢ 201
  not_created s ne e h = ne (sym s ∙ ap (λ (r : Reply). r.status) e ∙ h)

  module _ (lawful : IsLawful env.store) where
    register_client-Registered :
        (s : Server) (req : RegisterRequest) (w w' : World env.S) (rep : Reply)
        → is_empty req.redirect_uris ≡ false
        → all_valid req.redirect_uris ≡ true
        → register_client s req w ≡ (rep, w')
        → rep.status ≡ 201
        → Registered req w rep w'
    unfolding register_client reads
    register_client-Registered s req w w' rep named valid h success =
        elim (on-cases _ _ (Clients.register req.redirect_uris req.client_name) w w' rep h) [
          | inr (e, v, _, rest) ↦
              absurd (not_created {n = 500} refl (omega arith) (reply_of rest) success)
          | inl (c, v, done, rest) ↦
              let (asked, _, (m, m', held, holds, found, others)) =
                get-register lawful req.redirect_uris req.client_name w v done in
              record {
                client = c;
                asked = asked;
                body = ap (λ (r : Reply). r.body) (sym (reply_of rest));
                some_uri = named;
                valid = λ uri. all_valid-contains req.redirect_uris uri valid;
                before = m;
                after = m';
                held = held;
                holds =
                    subst (λ u. Clients u m') (state_of rest)
                      (event-Clients s (client_event c) v ∙ holds);
                found = found;
                others = others;
              }
        ]

    -- A registration that is answered with 201 was a POST with a request whose every redirect URI is
    -- valid, and registered a client with them; see `Registered`.
    pub handle_register-Registered :
        (s : Server) (method : String) (req : RegisterRequest) (w w' : World env.S) (rep : Reply)
        → handle_register s method (some req) w ≡ (rep, w')
        → rep.status ≡ 201
        → (method ≡ "POST") × Registered req w rep w'
    unfolding handle_register register_body
    handle_register-Registered s method req w w' rep h success =
        elim (Bool-cases (method == "POST")) [
          | inr other ↦
              absurd (not_created {n = 405} refl (omega arith) (reply_of (rw other at h)) success)
          | inl post ↦ elim (Bool-cases (is_empty req.redirect_uris)) [
            | inl blank ↦ absurd (
                not_created {n = 400} refl (omega arith) (reply_of (rw (post, blank) at h)) success)
            | inr named ↦ elim (Bool-cases (all_valid req.redirect_uris)) [
              | inr bad ↦ absurd (
                  not_created {n = 400} refl (omega arith) (reply_of (rw (post, named, bad) at h))
                    success)
              | inl valid ↦ (
                eq_of_test method "POST" post,
                register_client-Registered s req w w' rep named valid (rw (post, named, valid) at h)
                    success,
              )
            ]
          ]
        ]

  -- Every redirect URI of every registered client is valid.
  unfoldable pub IsSound : World env.S → Type 0
  IsSound w =
      (m : Map Client) (id : String) (c : Client) (uri : String)
      → Clients w m
      → Map.lookup id m ≡ some c
      → contains c.redirect_uris uri ≡ true
      → valid_redirect_uri uri ≡ true

  module _ (lawful : IsLawful env.store) where
    -- A successful registration keeps every registered redirect URI valid.
    pub handle_register-IsSound :
        (s : Server) (method : String) (req : RegisterRequest) (w w' : World env.S) (rep : Reply)
        → IsSound w
        → handle_register s method (some req) w ≡ (rep, w')
        → rep.status ≡ 201
        → IsSound w'
    unfolding IsSound
    handle_register-IsSound s method req w w' rep sound h success m id c uri held found has =
        let (_, r) = handle_register-Registered lawful s method req w w' rep h success in
        let same : r.after ≡ m = same_map r.holds held in
        elim (Bool-cases (r.client.id == id)) [
          | inl e ↦
              let is : r.client ≡ c = some_eq (
                sym r.found
                ∙ ap (λ x. Map.lookup x r.after) (eq_of_test r.client.id id e)
                ∙ ap (Map.lookup id) same
                ∙ found) in
              r.valid uri
                (subst (λ (x : Client). contains x.redirect_uris uri ≡ true) (sym is ∙ r.asked) has)
          | inr ne ↦
              sound r.before id c uri r.held
                (sym (r.others id (ne_of_test r.client.id id ne)) ∙ ap (Map.lookup id) same ∙ found)
                has
        ]

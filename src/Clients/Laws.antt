-- ===== src/Clients/Laws.antt =====
-- Laws of clients.go: Register and Get.
use lib_agent_oauth.Prelude.{String, ◌≡◌, ◌≢◌, sym, ap, subst, ◌∙◌, List, some, ne_test}
use lib_agent_oauth.Map
use lib_agent_oauth.Map.{Map, lookup-insert, lookup-insert_same}
use lib_agent_oauth.Exec.{ok}
use lib_agent_oauth.Env.{Env}
use lib_agent_oauth.Model.{World}
use lib_agent_oauth.Store.{IsLawful}
use lib_agent_oauth.Random.Laws.{drawing}
use lib_agent_oauth.JsonMap.Laws.{reads, get-of-reads}
use lib_agent_oauth.JsonMap.Draw.{draw_and_store-ok}
use lib_agent_oauth.Clients.{Client, client_codec, clients_store_key, put_client, register, get}

module _ ⦃env : Env⦄ where
  abbrev pub Clients : World env.S → Map Client → Type 0
  Clients w m = reads client_codec clients_store_key w ≡ ok m

  abbrev pub client_of : List String → String → String → Client
  client_of uris name id = record { id = id; redirect_uris = uris; name = name }

  module _ (lawful : IsLawful env.store) where
    -- A client that registers is found under its id afterwards, with the redirect URIs and the name
    -- that it gave, and the clients under other ids are as before.
    pub get-register :
        (uris : List String) (name : String) (w w' : World env.S) {c : Client}
        → register uris name w ≡ (ok c, w')
        → (c ≡ client_of uris name c.id)
          × (get c.id w' ≡ (ok (some c), w'))
          × ((m m' : Map Client) × Clients (drawing w) m
              × Clients w' m'
              × (Map.lookup c.id m' ≡ some c)
              × ((other : String) → c.id ≢ other → Map.lookup other m' ≡ Map.lookup other m))
    unfolding register get
    get-register uris name w w' {c} h =
        let (id, _, same, r) =
          draw_and_store-ok client_codec lawful clients_store_key 16
            (λ id. put_client (client_of uris name id)) (client_of uris name) w w' h in
        let here : c.id ≡ id = ap (λ (x : Client). x.id) (sym same) in
        let is : c ≡ client_of uris name c.id = sym same ∙ ap (client_of uris name) (sym here) in
        (
          is,
          subst (λ x. get x w' ≡ (ok (some c), w')) (sym here)
              (subst (λ x. get id w' ≡ (ok (some x), w')) same
                (get-of-reads client_codec clients_store_key id w' r.holds
                  ∙ ap (λ o. (ok o, w'))
                      (lookup-insert_same id (client_of uris name id) r.before))),
          (
            r.before,
            Map.insert id (client_of uris name id) r.before,
            r.held,
            r.holds,
            subst (λ x. Map.lookup x (Map.insert id (client_of uris name id) r.before) ≡ some c)
                (sym here) (lookup-insert_same id (client_of uris name id) r.before ∙ ap some same),
            λ other ne.
                rw (lookup-insert id other (client_of uris name id) r.before)
                  (rw (ne_test id other (subst (λ x. x ≢ other) here ne))),
          ),
        )

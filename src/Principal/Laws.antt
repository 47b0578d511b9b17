-- ===== src/Principal/Laws.antt =====
-- Laws of principal.go: SetPrincipalBinding and MergePrincipalBinding.
use lib_agent_oauth.Prelude.{
  String, ◌≡◌, ◌≢◌, refl, sym, ap, ◌∙◌, Bool, Option, none, some, eq_refl, ne_test,
}
use lib_agent_oauth.Map
use lib_agent_oauth.Map.{Map, lookup-insert, lookup-delete, lookup-copy}
use lib_agent_oauth.Exec.{ok, bind-pure-ok}
use lib_agent_oauth.Env.{Env}
use lib_agent_oauth.Model.{World}
use lib_agent_oauth.Store.{IsLawful}
use lib_agent_oauth.JsonMap.Laws.{reads, Writes, mutate-ok, after_of}
use lib_agent_oauth.Principal.Codec.{PrincipalRecord, record_codec}
use lib_agent_oauth.Principal.{
  principals_store_key, change_found, change_existing, mutate_existing, set_principal_binding,
  merge_principal_binding, merge_binding, binding_of, found,
}

-- A change of the record under one name.
abbrev pub changed :
    (PrincipalRecord → PrincipalRecord) → Option PrincipalRecord → Option PrincipalRecord
changed f none = none
changed f (some r) = some (f r)

module _ ⦃env : Env⦄ where
  -- The principals that a state holds.
  abbrev pub Principals : World env.S → Map PrincipalRecord → Type 0
  Principals w m = reads record_codec principals_store_key w ≡ ok m

  -- The record under `name` is changed by `f` if it is there, and everything else is as before.
  pub record Changed (name : String) (f : PrincipalRecord → PrincipalRecord) (w w' : World env.S)
      : Type 0 where
    pub before : Map PrincipalRecord
    pub after : Map PrincipalRecord
    pub held : Principals w before
    pub holds : Principals w' after
    pub at_name : Map.lookup name after ≡ changed f (Map.lookup name before)
    pub elsewhere :
        (other : String) → name ≢ other → Map.lookup other after ≡ Map.lookup other before
    pub writes : Writes principals_store_key w w'

  -- The closure's result and the map that it leaves.
  change-at :
      (name : String) (f : PrincipalRecord → PrincipalRecord) (m : Map PrincipalRecord)
      (o : Option PrincipalRecord)
      → Map.lookup name m ≡ o
      → ((change_found name f m o).0 ≡ changed f o)
        × (Map.lookup name (after_of (change_found name f m o) m) ≡ changed f o)
        × ((other : String)
            → name ≢ other
            → Map.lookup other (after_of (change_found name f m o) m) ≡ Map.lookup other m)
  change-at name f m none e = (refl, e, λ other ne. refl)
  change-at name f m (some r) e = (
    refl,
    rw (lookup-insert name name (f r) m) (rw eq_refl),
    λ other ne. rw (lookup-insert name other (f r) m) (rw (ne_test name other ne)),
  )

  found-changed :
      (f : PrincipalRecord → PrincipalRecord) (o : Option PrincipalRecord)
      → found (changed f o) ≡ found o
  found-changed f none = refl
  found-changed f (some r) = refl

  module _ (lawful : IsLawful env.store) where
    mutate_existing-ok :
        (name : String) (f : PrincipalRecord → PrincipalRecord) (w w' : World env.S)
        {o : Option PrincipalRecord}
        → mutate_existing name f w ≡ (ok o, w')
        → (c : Changed name f w w') × (o ≡ changed f (Map.lookup name c.before))
    unfolding mutate_existing
    mutate_existing-ok name f w w' {o} h =
        let r =
          mutate-ok record_codec lawful principals_store_key (change_existing name f) w w' h in
        let (value, here, there) = change-at name f r.before (Map.lookup name r.before) refl in
        (
          record {
            before = r.before;
            after = after_of (change_existing name f r.before) r.before;
            held = r.held;
            holds = r.holds;
            at_name = here;
            elsewhere = there;
            writes = r.writes;
          },
          sym r.value ∙ value,
        )

    -- SetPrincipalBinding replaces the binding of a principal that exists and keeps its code; it
    -- creates none.
    pub set_principal_binding-ok :
        (name : String) (b : Map String) (w w' : World env.S) {was : Bool}
        → set_principal_binding name b w ≡ (ok was, w')
        → (c : Changed name (λ r. record r { binding = b }) w w') × (was
            ≡ found (Map.lookup name c.before))
    unfolding set_principal_binding
    set_principal_binding-ok name b w w' {was} h =
        let (o, p, value) =
          bind-pure-ok found (mutate_existing name (λ r. record r { binding = b })) w w' h in
        let (c, e) = mutate_existing-ok name (λ r. record r { binding = b }) w w' p in
        (
          c,
          sym value
              ∙ ap found e
              ∙ found-changed (λ r. record r { binding = b }) (Map.lookup name c.before),
        )

    -- MergePrincipalBinding keeps the code and every key that the patch does not have, takes the
    -- patch's value for the others, and returns the binding that it stores; it creates no principal.
    pub merge_principal_binding-ok :
        (name : String) (patch : Map String) (w w' : World env.S) {merged : Option (Map String)}
        → merge_principal_binding name patch w ≡ (ok merged, w')
        → (c : Changed name (merge_binding patch) w w') × (merged
            ≡ binding_of (Map.lookup name c.after))
          × ((r : PrincipalRecord) (key : String)
              → Map.lookup name c.before ≡ some r
              → (r' : PrincipalRecord) × (Map.lookup name c.after ≡ some r')
                × (r'.code ≡ r.code)
                × (Map.lookup key r'.binding
                    ≡ Map.or_else (Map.lookup key patch) (Map.lookup key r.binding)))
    unfolding merge_principal_binding
    merge_principal_binding-ok name patch w w' h =
        let (o, p, value) =
          bind-pure-ok binding_of (mutate_existing name (merge_binding patch)) w w' h in
        let (c, e) = mutate_existing-ok name (merge_binding patch) w w' p in
        (
          c,
          sym value ∙ ap binding_of (e ∙ sym c.at_name),
          λ r key found_r. (
            merge_binding patch r,
            c.at_name ∙ ap (changed (merge_binding patch)) found_r,
            refl,
            lookup-copy key r.binding patch,
          ),
        )

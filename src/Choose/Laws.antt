-- ===== src/Choose/Laws.antt =====
-- Laws of choose_page.go: resolveBindingChoices.
use lib_agent_oauth.Prelude.{
  String, ◌≡◌, refl, sym, ap, subst, ◌∙◌, inl, inr, true, false, Bool-cases, Option, none, some, [],
  ◌∷◌, ◌==◌, eq_of_test, contains,
}
use lib_agent_oauth.Map
use lib_agent_oauth.Map.{Map, lookup-insert}
use lib_agent_oauth.Principal.Verify.{sorted}
use lib_agent_oauth.Choose.Members.{offered-no_set}
use lib_agent_oauth.Choose.{
  binding_set, set_keys, set_valued_keys, resolve_choice, add_resolved, resolve_binding_choices,
}

-- What a key is resolved to is no set.
resolve_choice-no_set :
    (value chosen : String) {x : String}
    → resolve_choice value chosen ≡ some x
    → (binding_set x).1 ≡ false
resolve_choice-no_set value chosen {x} h = elim (Bool-cases (binding_set value).1) [
  | inr plain ↦ subst (λ v. (binding_set v).1 ≡ false) (some_eq (rw plain at h)) plain
  | inl set ↦
      let h' = rw set at h in
      elim (Bool-cases (contains (binding_set value).0 chosen)) [
        | inl c ↦
            subst (λ v. (binding_set v).1 ≡ false) (some_eq (rw c at h'))
              (offered-no_set value chosen c)
        | inr c ↦ cc (rw c at h')
      ]
]
  where
    some_eq : {a b : String} → some a ≡ some b → a ≡ b
    some_eq h = cc

set_keys-delete : (k : String) (m : Map String) → set_keys m ≡ [] → set_keys (Map.delete k m) ≡ []
unfolding set_keys Map.delete
set_keys-delete k [] h = refl
set_keys-delete k ((j, v) ∷ m) h = elim (Bool-cases (binding_set v).1) [
  | inl set ↦ cc (rw set at h)
  | inr plain ↦ elim (Bool-cases (j == k)) [
    | inl e ↦ rw e (set_keys-delete k m (rw plain at h))
    | inr e ↦ rw (e, plain) (set_keys-delete k m (rw plain at h))
  ]
]

-- How an entry and the others are resolved.
add_resolved-some :
    (k : String) (o : Option String) (rest : Option (Map String)) {r : Map String}
    → add_resolved k o rest ≡ some r
    → (x : String) × (m : Map String) × (o ≡ some x) × (rest ≡ some m) × (r ≡ Map.insert k x m)
add_resolved-some k none rest h = cc
add_resolved-some k (some x) none h = cc
add_resolved-some k (some x) (some m) {r} h = (x, m, refl, refl, map_eq (sym h))
  where
    map_eq : {a b : Map String} → some a ≡ some b → a ≡ b
    map_eq h = cc

resolve-set_keys :
    (b : Map String) (choice : String → String) (r : Map String)
    → resolve_binding_choices b choice ≡ some r
    → set_keys r ≡ []
unfolding resolve_binding_choices set_keys Map.insert
resolve-set_keys [] choice r h = subst (λ m. set_keys m ≡ []) (map_eq h) refl
  where
    map_eq : {a b : Map String} → some a ≡ some b → a ≡ b
    map_eq h = cc
resolve-set_keys ((k, v) ∷ b) choice r h =
    let (x, m, here, rest, is) = add_resolved-some k _ (resolve_binding_choices b choice) h in
    rw is (
      rw (resolve_choice-no_set v (choice k) here)
        (set_keys-delete k m (resolve-set_keys b choice m rest)))

-- What a looked-up value is resolved to.
abbrev then_resolve : Option String → String → Option String
then_resolve none chosen = none
then_resolve (some v) chosen = resolve_choice v chosen

resolve-lookup :
    (b : Map String) (choice : String → String) (r : Map String)
    → resolve_binding_choices b choice ≡ some r
    → (k : String) → Map.lookup k r ≡ then_resolve (Map.lookup k b) (choice k)
unfolding resolve_binding_choices Map.lookup
resolve-lookup [] choice r h k = subst (λ m. Map.lookup k m ≡ none) (map_eq h) refl
  where
    map_eq : {a b : Map String} → some a ≡ some b → a ≡ b
    map_eq h = cc
resolve-lookup ((j, v) ∷ b) choice r h k =
    let (x, m, here, rest, is) = add_resolved-some j _ (resolve_binding_choices b choice) h in
    ap (Map.lookup k) is ∙ lookup-insert j k x m ∙ (elim (Bool-cases (j == k)) [
      | inl e ↦ rw e (sym here ∙ ap (λ y. resolve_choice v (choice y)) (eq_of_test j k e))
      | inr e ↦ rw e (resolve-lookup b choice m rest k)
    ])

-- What a resolved value is: the value itself if it is no set, or a member of the set that is the
-- choice.
abbrev pub IsResolved : String → String → Option String → Type 0
IsResolved v chosen found =
    ((binding_set v).1 ≡ false → found ≡ some v)
    × ((binding_set v).1 ≡ true
        → (found ≡ some chosen) × (contains (binding_set v).0 chosen ≡ true))

resolve_choice-IsResolved :
    (v chosen : String) {x : String}
    → resolve_choice v chosen ≡ some x
    → IsResolved v chosen (some x)
resolve_choice-IsResolved v chosen {x} h = (
  λ plain. sym (rw plain at h),
  λ set. elim (Bool-cases (contains (binding_set v).0 chosen)) [
    | inl c ↦ (sym (rw (set, c) at h), c)
    | inr c ↦ cc (rw (set, c) at h)
  ],
)

-- A found key is resolved to some value.
resolve-some :
    (b : Map String) (choice : String → String) (r : Map String)
    → resolve_binding_choices b choice ≡ some r
    → (k v : String) → Map.lookup k b ≡ some v
    → (x : String) × (resolve_choice v (choice k) ≡ some x)
unfolding resolve_binding_choices Map.lookup
resolve-some [] choice r h k v i = cc
resolve-some ((j, u) ∷ b) choice r h k v i =
    let (x, m, here, rest, is) = add_resolved-some j _ (resolve_binding_choices b choice) h in
    elim (Bool-cases (j == k)) [
      | inl e ↦
          let same : u ≡ v = text_eq (rw e at i) in
          (
            x,
            subst (λ y. resolve_choice y (choice k) ≡ some x) same
                (subst (λ y. resolve_choice u (choice y) ≡ some x) (eq_of_test j k e) here),
          )
      | inr e ↦ resolve-some b choice m rest k v (rw e at i)
    ]
  where
    text_eq : {a b : String} → some a ≡ some b → a ≡ b
    text_eq h = cc

-- A binding that is resolved has no set and no key that was not there. A value that is no set is
-- kept under its key, and in place of a set there is the submitted choice for its key, which is a
-- member of the set.
pub resolve_binding_choices_lem :
    (b : Map String) (choice : String → String) (r : Map String)
    → resolve_binding_choices b choice ≡ some r
    → (set_valued_keys r ≡ [])
      × ((k : String) → Map.lookup k b ≡ none → Map.lookup k r ≡ none)
      × ((k v : String) → Map.lookup k b ≡ some v → IsResolved v (choice k) (Map.lookup k r))
unfolding set_valued_keys sorted
resolve_binding_choices_lem b choice r h = (
  rw (resolve-set_keys b choice r h) refl,
  λ k i. resolve-lookup b choice r h k ∙ ap (λ o. then_resolve o (choice k)) i,
  λ k v i.
      let (x, e) = resolve-some b choice r h k v i in
      let found = resolve-lookup b choice r h k ∙ ap (λ o. then_resolve o (choice k)) i ∙ e in
      subst (IsResolved v (choice k)) (sym found) (resolve_choice-IsResolved v (choice k) e),
)

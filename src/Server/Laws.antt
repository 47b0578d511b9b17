-- ===== src/Server/Laws.antt =====
-- The audiences that a server issues tokens for.
use lib_agent_oauth.Prelude.{
  String, ◌≡◌, refl, ◌⊎◌, inl, inr, Bool, true, false, not, ◌&&◌, Bool-cases, some, List, [], ◌∷◌,
  ◌++◌, ◌==◌, contains, arith, eq_refl, eq_of_test, subst, sym, if◌then◌else◌,
}
use lib_agent_oauth.Text.{trim_slash, is_nil}
use lib_agent_oauth.Text.Laws.{trim_slash_idem}
use lib_agent_oauth.Server.{Audiences, add_resources, default_resource, audiences, resolve_resource}

-- What `New` promises of the audiences: the default is one of them, and every one is trimmed.
pub record IsAudiences (a : Audiences) : Type 0 where
  pub default_in : contains a.resources a.resource ≡ true
  pub trimmed : (r : String) → contains a.resources r ≡ true → trim_slash r ≡ r

contains-append :
    (l : List String) (x r : String)
    → contains (l ++ x ∷ []) r ≡ true
    → (contains l r ≡ true) ⊎ (x ≡ r)
contains-append [] x r h = inr (eq_of_test x r (ground arith))
contains-append (y ∷ l) x r h = elim (Bool-cases (y == r)) [
  | inl e ↦ inl (rw e)
  | inr e ↦ rw e (contains-append l x r (rw e at h))
]

contains-append_left :
    (l : List String) (x r : String) → contains l r ≡ true → contains (l ++ x ∷ []) r ≡ true
contains-append_left [] x r h = cc
contains-append_left (y ∷ l) x r h = elim (Bool-cases (y == r)) [
  | inl e ↦ rw e
  | inr e ↦ rw e (contains-append_left l x r (rw e at h))
]

contains-append_last : (l : List String) (x : String) → contains (l ++ x ∷ []) x ≡ true
contains-append_last [] x = rw eq_refl
contains-append_last (y ∷ l) x = elim (Bool-cases (y == x)) [
  | inl e ↦ rw e
  | inr e ↦ rw e (contains-append_last l x)
]

-- Every text of the list is trimmed.
abbrev IsTrimmed : List String → Type 0
IsTrimmed l = (r : String) → contains l r ≡ true → trim_slash r ≡ r

-- One round of the loop keeps what is known, and what is known stays trimmed.
module _ (resource : String) (known : List String) (r : String) where
  abbrev is_new : Bool
  is_new =
      not (is_nil (trim_slash r))
      && not (trim_slash r == resource)
      && not (contains known (trim_slash r))

  next : List String
  next = if is_new then known ++ trim_slash r ∷ [] else known

  next-IsTrimmed : IsTrimmed known → IsTrimmed next
  unfolding next
  next-IsTrimmed h = elim (Bool-cases is_new) [
    | inl e ↦ rw e (λ x k. elim (contains-append known (trim_slash r) x k) [
      | inl old ↦ h x old
      | inr new ↦ subst (λ y. trim_slash y ≡ y) new (trim_slash_idem r)
    ])
    | inr e ↦ rw e h
  ]

  next-keeps : (x : String) → contains known x ≡ true → contains next x ≡ true
  unfolding next
  next-keeps x h = elim (Bool-cases is_new) [
    | inl e ↦ rw e (contains-append_left known (trim_slash r) x h)
    | inr e ↦ rw e h
  ]

  next-has :
      contains known resource ≡ true
      → is_nil (trim_slash r) ≡ false
      → contains next (trim_slash r) ≡ true
  unfolding next
  next-has d h = elim (Bool-cases is_new) [
    | inl e ↦ rw e (contains-append_last known (trim_slash r))
    | inr e ↦ rw e (elim (Bool-cases (trim_slash r == resource)) [
      | inl same ↦ rw (eq_of_test (trim_slash r) resource same) d
      | inr other ↦ ground arith
    ])
  ]

add_resources-IsTrimmed :
    (resource : String) (known rest : List String)
    → IsTrimmed known
    → IsTrimmed (add_resources resource known rest)
unfolding add_resources next
add_resources-IsTrimmed resource known [] h = h
add_resources-IsTrimmed resource known (r ∷ rest) h =
    add_resources-IsTrimmed resource (next resource known r) rest
      (next-IsTrimmed resource known r h)

add_resources-keeps :
    (resource : String) (known rest : List String) (x : String)
    → contains known x ≡ true
    → contains (add_resources resource known rest) x ≡ true
unfolding add_resources next
add_resources-keeps resource known [] x h = h
add_resources-keeps resource known (r ∷ rest) x h =
    add_resources-keeps resource (next resource known r) rest x (next-keeps resource known r x h)

add_resources-has :
    (resource : String) (known rest : List String) (x : String)
    → contains known resource ≡ true
    → contains rest x ≡ true
    → is_nil (trim_slash x) ≡ false
    → contains (add_resources resource known rest) (trim_slash x) ≡ true
unfolding add_resources next
add_resources-has resource known [] x d h e = cc
add_resources-has resource known (r ∷ rest) x d h e = elim (Bool-cases (r == x)) [
  | inl same ↦
      subst
        (λ (y : String).
          contains (add_resources resource (next resource known r) rest) (trim_slash y) ≡ true)
        (eq_of_test r x same)
        (add_resources-keeps resource (next resource known r) rest (trim_slash r) (
          next-has resource known r d
            (subst (λ (y : String). is_nil (trim_slash y) ≡ false) (sym (eq_of_test r x same)) e)))
  | inr other ↦
      add_resources-has resource (next resource known r) rest x
        (next-keeps resource known r resource d) (rw other at h) e
]

empty_trimmed : is_nil (trim_slash "") ≡ true
unfolding trim_slash
empty_trimmed = refl

module _ (public_url resource : String) (resources : List String) where
  abbrev default : String
  default = default_resource public_url resource

  default-trimmed : trim_slash default ≡ default
  default-trimmed = elim (Bool-cases (is_nil (trim_slash resource))) [
    | inl e ↦ rw e (trim_slash_idem public_url)
    | inr e ↦ rw e (trim_slash_idem resource)
  ]

  -- The audiences that `New` builds are well-formed, whatever the configuration.
  pub audiences-IsAudiences : IsAudiences (audiences public_url resource resources)
  unfolding audiences
  audiences-IsAudiences = record {
    default_in = add_resources-keeps default (default ∷ []) resources default (rw eq_refl);
    trimmed = add_resources-IsTrimmed default (default ∷ []) resources (λ r h.
        subst (λ x. trim_slash x ≡ x) (eq_of_test default r (ground arith)) default-trimmed);
  }

  -- Every configured mount is served, under its trimmed name, if it names anything.
  pub resolve_resource-configured :
      (r : String)
      → contains resources r ≡ true
      → is_nil (trim_slash r) ≡ false
      → resolve_resource (audiences public_url resource resources) r ≡ some (trim_slash r)
  unfolding audiences resolve_resource
  resolve_resource-configured r h e = elim (Bool-cases (r == "")) [
    | inl blank ↦
        let p : is_nil (trim_slash "") ≡ false =
          subst (λ x. is_nil (trim_slash x) ≡ false) (eq_of_test r "" blank) e in
        cc (empty_trimmed, p)
    | inr named ↦
        rw named (rw (add_resources-has default (default ∷ []) resources r (rw eq_refl) h e))
  ]

-- A resolved audience is one that the server serves, and trimmed.
pub resolve_resource-served :
    (a : Audiences) (requested : String) {r : String}
    → IsAudiences a
    → resolve_resource a requested ≡ some r
    → (contains a.resources r ≡ true) × (trim_slash r ≡ r)
unfolding resolve_resource
resolve_resource-served a requested {r} ok h = elim (Bool-cases (requested == "")) [
  | inl blank ↦
      let same : a.resource ≡ r = ground arith in
      let here : contains a.resources r ≡ true =
        subst (λ x. contains a.resources x ≡ true) same ok.default_in in
      (here, ok.trimmed r here)
  | inr named ↦ let here : contains a.resources r ≡ true = ground arith in (here, ok.trimmed r here)
]

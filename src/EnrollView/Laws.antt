-- ===== src/EnrollView/Laws.antt =====
-- Laws of enroll_view.go.
use lib_agent_oauth.Prelude.{
  ℕ, ◌+◌, In, String, ◌≡◌, ◌≢◌, refl, sym, ap, subst, ◌∙◌, ◌⊎◌, inl, inr, Bool, true, false,
  Bool-cases, not, ◌&&◌, Option, none, some, List, [], ◌∷◌, ◌==◌, if◌then◌else◌, eq_of_test,
  ne_of_test, arith, eq_iff,
}
use lib_agent_oauth.Prelude
use lib_agent_oauth.Text.{trim_space}
use lib_agent_oauth.Map
use lib_agent_oauth.Map.{Map, lookup-insert}
use lib_agent_oauth.Enrollment.{CredentialField, CredentialMode, Enrollment}
use lib_agent_oauth.Enrollment.Laws.{IsUsable}
use lib_agent_oauth.EnrollView.{
  field_input_name, Collected, collect_field, collect_fields, collect_mode_fields,
}

-- What a field of a form holds.
abbrev pub read : String → (String → String) → CredentialField → String
read mode_key get f = trim_space (get (field_input_name mode_key f.key))

module _ (mode_key : String) (get : String → String) where
  -- The last field with the key `k`, if there is one.
  values-cases :
      (fs : List CredentialField) (c : Collected) (k : String)
      → ((f : CredentialField) × In f fs
          × (f.key ≡ k)
          × (Map.lookup k (collect_fields mode_key get fs c).values ≡ some (read mode_key get f)))
        ⊎ ((Map.lookup k (collect_fields mode_key get fs c).values ≡ Map.lookup k c.values)
            × ((f : CredentialField) → In f fs → f.key ≢ k))
  unfolding collect_fields
  values-cases [] c k = inr (refl, λ f i. absurd i)
  values-cases (x ∷ fs) c k = elim (values-cases fs (collect_field x (read mode_key get x) c) k) [
    | inl (f, i, e, h) ↦ inl (f, inr i, e, h)
    | inr (h, others) ↦
        let here = h ∙ lookup-insert x.key k (read mode_key get x) c.values in
        elim (Bool-cases (x.key == k)) [
          | inl e ↦ inl (x, inl refl, eq_of_test x.key k e, rw e at here)
          | inr e ↦ inr (rw e at here, both x fs k (ne_of_test x.key k e) others)
        ]
  ]
    where
      both :
          (x : CredentialField) (fs : List CredentialField) (k : String)
          → x.key ≢ k
          → ((f : CredentialField) → In f fs → f.key ≢ k)
          → (f : CredentialField) → In f (x ∷ fs)
          → f.key ≢ k
      both x fs k ne others f (inl e) = subst (λ (g : CredentialField). g.key ≢ k) e ne
      both x fs k ne others f (inr i) = others f i

  -- What may be echoed under the key `k` is of a field that is no secret.
  echoed-cases :
      (fs : List CredentialField) (c : Collected) (k : String)
      → ((f : CredentialField) × In f fs
          × (f.key ≡ k)
          × (f.secret ≡ false)
          × (Map.lookup k (collect_fields mode_key get fs c).non_secret
              ≡ some (read mode_key get f)))
        ⊎ ((Map.lookup k (collect_fields mode_key get fs c).non_secret ≡ Map.lookup k c.non_secret)
            × ((f : CredentialField) → In f fs → f.key ≡ k → f.secret ≡ true))
  unfolding collect_fields
  echoed-cases [] c k = inr (refl, λ f i. absurd i)
  echoed-cases (x ∷ fs) c k = elim (echoed-cases fs (collect_field x (read mode_key get x) c) k) [
    | inl (f, i, e, s, h) ↦ inl (f, inr i, e, s, h)
    | inr (h, others) ↦ elim (Bool-cases x.secret) [
      | inl secret ↦ inr (
        h ∙ ap (Map.lookup k) (hidden x c (read mode_key get x) secret),
        both x fs k (λ _. secret) others,
      )
      | inr shown ↦
          let here =
            h
            ∙ ap (Map.lookup k) (kept_plain x c (read mode_key get x) shown)
            ∙ lookup-insert x.key k (read mode_key get x) c.non_secret in
          elim (Bool-cases (x.key == k)) [
            | inl e ↦ inl (x, inl refl, eq_of_test x.key k e, shown, rw e at here)
            | inr e ↦
                inr (rw e at here, both x fs k (λ same. absurd (ne_of_test x.key k e same)) others)
          ]
    ]
  ]
    where
      hidden :
          (x : CredentialField) (c : Collected) (v : String)
          → x.secret ≡ true
          → (collect_field x v c).non_secret ≡ c.non_secret
      hidden x c v s = rw s refl

      kept_plain :
          (x : CredentialField) (c : Collected) (v : String)
          → x.secret ≡ false
          → (collect_field x v c).non_secret ≡ Map.insert x.key v c.non_secret
      kept_plain x c v s = rw s refl

      both :
          (x : CredentialField) (fs : List CredentialField) (k : String)
          → (x.key ≡ k → x.secret ≡ true)
          → ((f : CredentialField) → In f fs → f.key ≡ k → f.secret ≡ true)
          → (f : CredentialField) → In f (x ∷ fs)
          → f.key ≡ k
          → f.secret ≡ true
      both x fs k here others f (inl e) =
          subst (λ (g : CredentialField). g.key ≡ k → g.secret ≡ true) e here
      both x fs k here others f (inr i) = others f i

  -- A label that is missing stays missing.
  abbrev HasAll : List CredentialField → Type 0
  HasAll fs = (f : CredentialField) → In f fs → f.optional ≡ false → read mode_key get f ≢ ""

  snoc-ne : (l : List String) (s : String) → Prelude.◌++◌ l (s ∷ []) ≢ []
  snoc-ne [] s h = cc
  snoc-ne (x ∷ l) s h = cc

  missing-cases :
      (fs : List CredentialField) (c : Collected)
      → (collect_fields mode_key get fs c).missing ≡ []
      → (c.missing ≡ []) × HasAll fs
  unfolding collect_fields
  missing-cases [] c h = (h, λ f i. absurd i)
  missing-cases (x ∷ fs) c h =
      let (before, rest) = missing-cases fs (collect_field x (read mode_key get x) c) h in
      elim (Bool-cases (read mode_key get x == "" && not x.optional)) [
        | inl blank ↦ absurd (snoc-ne c.missing x.label (rw blank at before))
        | inr given ↦ (rw given at before, λ f i. both x fs f rest given i)
      ]
    where
      both :
          (x : CredentialField) (fs : List CredentialField) (f : CredentialField)
          → HasAll fs
          → (read mode_key get x == "" && not x.optional) ≡ false
          → In f (x ∷ fs)
          → f.optional ≡ false
          → read mode_key get f ≢ ""
      both x fs f rest given (inl e) =
          subst (λ (g : CredentialField). g.optional ≡ false → read mode_key get g ≢ "") e
            (λ required. ground (arith, eq_iff (read mode_key get x) ""))
      both x fs f rest given (inr i) = rest f i

-- What has been read of the form of a mode: each field's own trimmed input under its key, of which
-- the secret ones are not echoed; and where nothing is missing, no required field is blank.
pub record IsRead (m : CredentialMode) (get : String → String) (c : Collected) : Type 0 where
  pub values :
      (f : CredentialField) → In f m.fields → Map.lookup f.key c.values ≡ some (read m.key get f)
  pub echoed :
      (f : CredentialField)
      → In f m.fields
      → Map.lookup f.key c.non_secret ≡ (if f.secret then none else some (read m.key get f))
  pub required :
      c.missing ≡ []
      → (f : CredentialField) → In f m.fields
      → f.optional ≡ false
      → read m.key get f ≢ ""

-- The form of a mode of a usable enrollment is read field by field: each field's trimmed input is
-- stored under its key, a secret is not echoed, and where no label is missing no required field is
-- blank.
pub collect_mode_fields-IsRead :
    (e : Enrollment) (m : CredentialMode) (get : String → String)
    → IsUsable e
    → In m e.descriptor.modes
    → IsRead m get (collect_mode_fields m get)
unfolding collect_mode_fields Map.lookup
collect_mode_fields-IsRead e m get usable i =
    let start : Collected = record { values = []; non_secret = []; missing = [] } in
    record {
      values = λ f j. elim (values-cases m.key get m.fields start f.key) [
        | inl (g, k, same, h) ↦
            h ∙ ap (λ x. some (read m.key get x)) (usable.told_apart m g f i k j same)
        | inr (_, others) ↦ absurd (others f j refl)
      ];
      echoed = λ f j. elim (echoed-cases m.key get m.fields start f.key) [
        | inl (g, k, same, shown, h) ↦
            h
            ∙ subst
                (λ (x : CredentialField).
                  some (read m.key get g) ≡ (if x.secret then none else some (read m.key get x)))
                (usable.told_apart m g f i k j same) (rw shown refl)
        | inr (h, secret) ↦ h ∙ (rw (secret f j refl) refl)
      ];
      required = λ h. (missing-cases m.key get m.fields start h).1;
    }

-- ===== src/Enrollment/Laws.antt =====
-- Laws of enrollment.go: Validate.
use lib_agent_oauth.Prelude.{
  In, String, ◌≡◌, ◌≢◌, refl, sym, ap, subst, inl, inr, false, Bool-cases, some, List, [], ◌∷◌,
  arith, ◌==◌, eq_refl, ne_of_test, ne_test, contains, ◌∙◌,
}
use lib_agent_oauth.Exec.{Result, ok, err}
use lib_agent_oauth.Model.{is_empty}
use lib_agent_oauth.Enrollment.{
  CredentialField, CredentialMode, Enrollment, validate_fields, validate_mode, and_then,
  validate_modes, validate, find_mode, mode,
}

contains-tail : (l : List String) (a b : String) → contains (a ∷ l) b ≡ false → contains l b ≡ false
contains-tail l a b h = ground arith

contains-ne : (l : List String) (a b : String) → contains (a ∷ l) b ≡ false → a ≢ b
contains-ne l a b h = ne_of_test a b (ground arith)

both-ok : (r s : Result (Unit {0})) → and_then r s ≡ ok tt → (r ≡ ok tt) × (s ≡ ok tt)
both-ok (ok tt) s h = (refl, h)
both-ok (err e) s h = cc

-- One round of the outer loop that succeeds.
modes-round :
    (seen : List String) (m : CredentialMode) (ms : List CredentialMode)
    → validate_modes seen (m ∷ ms) ≡ ok tt
    → (m.key ≢ "")
      × (contains seen m.key ≡ false)
      × (validate_mode m ≡ ok tt)
      × (validate_modes (m.key ∷ seen) ms ≡ ok tt)
unfolding validate_modes
modes-round seen m ms h = elim (Bool-cases (m.key == "")) [
  | inl e ↦ absurd (cc (rw e at h))
  | inr named ↦ elim (Bool-cases (contains seen m.key)) [
    | inl e ↦ absurd (cc (rw (named, e) at h))
    | inr fresh ↦
        let (p, q) =
          both-ok (validate_mode m) (validate_modes (m.key ∷ seen) ms) (rw (named, fresh) at h) in
        (ne_of_test m.key "" named, fresh, p, q)
  ]
]

fields-round :
    (seen : List String) (f : CredentialField) (fs : List CredentialField)
    → validate_fields seen (f ∷ fs) ≡ ok tt
    → (f.key ≢ "") × (contains seen f.key ≡ false) × (validate_fields (f.key ∷ seen) fs ≡ ok tt)
unfolding validate_fields
fields-round seen f fs h = elim (Bool-cases (f.key == "")) [
  | inl e ↦ absurd (cc (rw e at h))
  | inr named ↦ elim (Bool-cases (contains seen f.key)) [
    | inl e ↦ absurd (cc (rw (named, e) at h))
    | inr fresh ↦ (ne_of_test f.key "" named, fresh, rw (named, fresh) at h)
  ]
]

-- A mode of a validated list is the one that its key finds.
modes-In :
    (seen : List String) (ms : List CredentialMode) (m : CredentialMode)
    → validate_modes seen ms ≡ ok tt
    → In m ms
    → (m.key ≢ "")
      × (contains seen m.key ≡ false)
      × (validate_mode m ≡ ok tt)
      × (find_mode m.key ms ≡ some m)
unfolding find_mode
modes-In seen [] m h i = absurd i
modes-In seen (x ∷ xs) m h (inl p) =
    let (named, fresh, fields, _) = modes-round seen x xs h in
    subst
      (λ (y : CredentialMode).
        (y.key ≢ "")
        × (contains seen y.key ≡ false)
        × (validate_mode y ≡ ok tt)
        × (find_mode y.key (x ∷ xs) ≡ some y))
      p (named, fresh, fields, rw eq_refl)
modes-In seen (x ∷ xs) m h (inr i) =
    let (_, _, _, rest) = modes-round seen x xs h in
    let (named, fresh, fields, found) = modes-In (x.key ∷ seen) xs m rest i in
    (
      named,
      contains-tail seen x.key m.key fresh,
      fields,
      rw (ne_test x.key m.key (contains-ne seen x.key m.key fresh)) found,
    )

fields-In :
    (seen : List String) (fs : List CredentialField) (f : CredentialField)
    → validate_fields seen fs ≡ ok tt
    → In f fs
    → (f.key ≢ "") × (contains seen f.key ≡ false)
fields-In seen [] f h i = absurd i
fields-In seen (x ∷ xs) f h (inl p) =
    let (named, fresh, _) = fields-round seen x xs h in
    subst (λ (y : CredentialField). (y.key ≢ "") × (contains seen y.key ≡ false)) p (named, fresh)
fields-In seen (x ∷ xs) f h (inr i) =
    let (_, _, rest) = fields-round seen x xs h in
    let (named, fresh) = fields-In (x.key ∷ seen) xs f rest i in
    (named, contains-tail seen x.key f.key fresh)

-- Two fields with one key are one field.
fields-once :
    (seen : List String) (fs : List CredentialField) (f g : CredentialField)
    → validate_fields seen fs ≡ ok tt
    → In f fs
    → In g fs
    → f.key ≡ g.key
    → f ≡ g
fields-once seen [] f g h i j e = absurd i
fields-once seen (x ∷ xs) f g h (inl p) (inl q) e = sym p ∙ q
fields-once seen (x ∷ xs) f g h (inl p) (inr j) e =
    let (_, _, rest) = fields-round seen x xs h in
    absurd (
      contains-ne seen x.key g.key (fields-In (x.key ∷ seen) xs g rest j).1
        (ap (λ (y : CredentialField). y.key) p ∙ e))
fields-once seen (x ∷ xs) f g h (inr i) (inl q) e =
    let (_, _, rest) = fields-round seen x xs h in
    absurd (
      contains-ne seen x.key f.key (fields-In (x.key ∷ seen) xs f rest i).1
        (ap (λ (y : CredentialField). y.key) q ∙ sym e))
fields-once seen (x ∷ xs) f g h (inr i) (inr j) e =
    let (_, _, rest) = fields-round seen x xs h in fields-once (x.key ∷ seen) xs f g rest i j e

-- What a form may count on: a mode is selected by its key, and a field is named by its key.
pub record IsUsable (e : Enrollment) : Type 0 where
  pub some_mode : is_empty e.descriptor.modes ≡ false
  pub selects : (m : CredentialMode) → In m e.descriptor.modes → mode e m.key ≡ some m
  pub some_field : (m : CredentialMode) → In m e.descriptor.modes → is_empty m.fields ≡ false
  pub named :
      (m : CredentialMode) (f : CredentialField)
      → In m e.descriptor.modes
      → In f m.fields
      → f.key ≢ ""
  pub told_apart :
      (m : CredentialMode) (f g : CredentialField)
      → In m e.descriptor.modes
      → In f m.fields
      → In g m.fields
      → f.key ≡ g.key
      → f ≡ g

mode-round :
    (m : CredentialMode)
    → validate_mode m ≡ ok tt
    → (is_empty m.fields ≡ false) × (validate_fields [] m.fields ≡ ok tt)
mode-round m h = elim (Bool-cases (is_empty m.fields)) [
  | inl e ↦ absurd (cc (rw e at h))
  | inr e ↦ (e, rw e at h)
]

-- An enrollment that is validated is usable: it has a mode, every mode is selected by its key and
-- has a field, and in a mode no field has an empty key and no two have the same.
pub validate-IsUsable : (e : Enrollment) → validate e ≡ ok tt → IsUsable e
unfolding validate mode
validate-IsUsable e h = elim (Bool-cases (is_empty e.descriptor.modes)) [
  | inl blank ↦ absurd (cc (rw blank at h))
  | inr modes ↦
      let good : validate_modes [] e.descriptor.modes ≡ ok tt = rw modes at h in
      record {
        some_mode = modes;
        selects = λ m i.
            let (named, _, _, found) = modes-In [] e.descriptor.modes m good i in
            rw (ne_test m.key "" named) found;
        some_field = λ m i. (mode-round m (modes-In [] e.descriptor.modes m good i).2).0;
        named = λ m f i j.
            (fields-In [] m.fields f (mode-round m (modes-In [] e.descriptor.modes m good i).2).1
              j).0;
        told_apart = λ m f g i j k.
            fields-once [] m.fields f g (mode-round m (modes-In [] e.descriptor.modes m good i).2).1
              j k;
      }
]

-- ===== src/Metadata/Laws.antt =====
-- Where the metadata of a resource is found.
use Prim.Native.String as Chars
use Prim.Native.String.append
use Prim.Native.String.{◌++◌}
use lib_agent_oauth.Prelude.{
  Char, String, ◌≡◌, ◌≢◌, refl, sym, ap, ◌∙◌, inl, inr, true, false, Bool-cases, some, List, [],
  ◌∷◌, ◌==◌, contains, eq_of_test, eq_refl, ne_test, ne_of_test, arith,
}
use lib_agent_oauth.Map
use lib_agent_oauth.Map.{Map}
use lib_agent_oauth.Server.{Server}
use lib_agent_oauth.Delegate.{
  protected_resource_metadata_path, protected_resource_metadata_url, resource_suffix,
}
use lib_agent_oauth.Metadata.{
  write_prm, Route, resource_document, resource_routes, fixed_routes, register_routes,
}

tail_eq : {c d : Char} {s t : String} → Chars.◌∷◌ c s ≡ Chars.◌∷◌ d t → s ≡ t
tail_eq h = cc

-- What follows a prefix.
cancel-prefix : (p a b : String) → p ++ a ≡ p ++ b → a ≡ b
cancel-prefix Chars.[] a b h = sym (append.nil a) ∙ h ∙ append.nil b
cancel-prefix (Chars.◌∷◌ c p) a b h =
    cancel-prefix p a b (tail_eq (sym (append.cons c p a) ∙ h ∙ append.cons c p b))

append-blank : (p : String) → p ++ "" ≡ p
append-blank Chars.[] = append.nil ""
append-blank (Chars.◌∷◌ c p) = append.cons c p "" ∙ ap (λ s. Chars.◌∷◌ c s) (append-blank p)

-- The path of the metadata of a resource.
abbrev pub metadata_path : Server → String → String
metadata_path s r = protected_resource_metadata_path ++ resource_suffix s.public_url r

-- The document under a resource's path is that of a resource in the list that has the same path.
routes-found :
    (s : Server) (r : String) (l : List String) (rest : Map Route)
    → resource_suffix s.public_url r ≢ ""
    → contains l r ≡ true
    → (x : String) × (contains l x ≡ true)
      × (resource_suffix s.public_url x ≡ resource_suffix s.public_url r)
      × (Map.lookup (metadata_path s r) (resource_routes s l rest)
          ≡ some (resource_document (write_prm s x)))
unfolding resource_routes Map.lookup
routes-found s r [] rest ne h = cc
routes-found s r (y ∷ l) rest ne h = elim (Bool-cases (resource_suffix s.public_url y == "")) [
  | inl base ↦
      let other : (y == r) ≡ false =
        ne_test y r (λ e. ne (ap (resource_suffix s.public_url) (sym e) ∙ eq_of_test _ "" base)) in
      let (x, i, same, found) = routes-found s r l rest ne (rw other at h) in
      (x, ground (arith, i), same, rw base found)
  | inr suffixed ↦ elim (Bool-cases (metadata_path s y == metadata_path s r)) [
    | inl hit ↦ (
      y,
      rw eq_refl refl,
      cancel-prefix protected_resource_metadata_path _ _
          (eq_of_test (metadata_path s y) (metadata_path s r) hit),
      rw suffixed (rw hit refl),
    )
    | inr miss ↦
        let other : (y == r) ≡ false =
          ne_test y r (λ e.
            ne_of_test (metadata_path s y) (metadata_path s r) miss (ap (metadata_path s) e)) in
        let (x, i, same, found) = routes-found s r l rest ne (rw other at h) in
        (x, ground (arith, i), same, rw suffixed (rw miss found))
  ]
]

-- The metadata of a served resource that is not the public URL itself is found where a challenge
-- says that it is: under the public URL there is, at the path of the resource, the document of a
-- served resource with the same path, which names the public URL as its authorization server.
pub register_routes-found :
    (s : Server) (r : String)
    → contains s.resources r ≡ true
    → resource_suffix s.public_url r ≢ ""
    → (path : String) × (x : String) × (protected_resource_metadata_url s.public_url r
        ≡ s.public_url ++ path)
      × (contains s.resources x ≡ true)
      × (resource_suffix s.public_url x ≡ resource_suffix s.public_url r)
      × (Map.lookup path (register_routes s)
          ≡ some (
              resource_document (record {
                resource = x;
                authorization_servers = s.public_url ∷ [];
                scopes_supported = s.scopes;
                bearer_methods_supported = "header" ∷ [];
              })))
unfolding protected_resource_metadata_url register_routes Map.lookup write_prm
register_routes-found s r h ne =
    let (x, i, same, found) = routes-found s r s.resources (fixed_routes s) ne h in
    let miss : (protected_resource_metadata_path == metadata_path s r) ≡ false = ne_test _ _ (λ e.
      ne (
        sym (
          cancel-prefix protected_resource_metadata_path "" (resource_suffix s.public_url r)
            (append-blank protected_resource_metadata_path ∙ e)))) in
    (metadata_path s r, x, refl, i, same, rw miss found)

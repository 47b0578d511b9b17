-- ===== src/Refresh/Codec.antt =====
-- The stored form of a refresh grant and of a principal grant.
use lib_agent_oauth.Prelude.{
  String, ◌≡◌, refl, true, false, Option, some, arith, ◌==◌, eq_iff, if◌then◌else◌, ap, sym,
  Bool-cases, inl, inr,
}
use lib_agent_oauth.Json.{Json, Members, null, text, obj, done, member, field}
use lib_agent_oauth.Json.Codec.{
  Codec, ◌>>=◌, members, as_text, put_text, put_map, text_codec, encode_map, decode_map,
  as_text-put_text, field-put_text, field-put_map, decode_map-put_map,
}
use lib_agent_oauth.Model.{PrincipalGrant, anonymous, is_anonymous}

unfoldable pub encode_principal : PrincipalGrant → Json
encode_principal p =
    obj
      (put_text "name" p.name (put_map "binding" (encode_map text_codec p.binding) p.binding done))

unfoldable pub decode_principal : Json → Option PrincipalGrant
decode_principal j = do
  m ← members j
  name ← as_text (field "name" m)
  binding ← decode_map text_codec (field "binding" m)
  some (record { name = name; binding = binding })

pub decode_principal-encode : (p : PrincipalGrant) → decode_principal (encode_principal p) ≡ some p
unfolding decode_principal encode_principal
decode_principal-encode p =
    rw (as_text-put_text "name" p.name _ (field-put_map "name" "binding" _ p.binding done refl)) (
      rw (field-put_text "binding" "name" p.name _ refl)
        (rw (decode_map-put_map text_codec "binding" p.binding done refl)))

abbrev pub principal_codec : Codec PrincipalGrant
principal_codec = record {
  encode = encode_principal;
  decode = decode_principal;
  decode-encode = decode_principal-encode;
}

pub record RefreshGrant : Type 0 where
  pub client_id : String
  pub scope : String
  pub resource : String
  pub principal : PrincipalGrant

-- `omitzero` on the principal.
put_principal : PrincipalGrant → Members → Members
put_principal p m = if is_anonymous p then m else member "principal" (encode_principal p) m

unfoldable pub encode_refresh : RefreshGrant → Json
unfolding put_principal
encode_refresh g = obj (
    member "client_id" (text g.client_id) (
      member "scope" (text g.scope)
        (put_text "resource" g.resource (put_principal g.principal done))))

unfoldable pub decode_refresh : Json → Option RefreshGrant
decode_refresh j = do
  m ← members j
  client_id ← as_text (field "client_id" m)
  scope ← as_text (field "scope" m)
  resource ← as_text (field "resource" m)
  principal ← decode_principal (field "principal" m)
  some (record { client_id = client_id; scope = scope; resource = resource; principal = principal })

is_anonymous-eq : (p : PrincipalGrant) → is_anonymous p ≡ true → p ≡ anonymous
unfolding is_anonymous
is_anonymous-eq p h = ground (arith, eq_iff p.name "")

decode-put_principal :
    (p : PrincipalGrant) → decode_principal (field "principal" (put_principal p done)) ≡ some p
unfolding put_principal
decode-put_principal p = elim (Bool-cases (is_anonymous p)) [
  | inl e ↦ rw e (unfold decode_principal decode_map in ap some (sym (is_anonymous-eq p e)))
  | inr e ↦ rw e (decode_principal-encode p)
]

field-put_principal :
    (j : String) (p : PrincipalGrant)
    → ("principal" == j) ≡ false
    → field j (put_principal p done) ≡ null
unfolding put_principal
field-put_principal j p h = elim (Bool-cases (is_anonymous p)) [ inl e ↦ rw e | inr e ↦ rw (e, h) ]

-- A refresh grant that is written as JSON is read back as the same grant.
pub decode_refresh-encode : (g : RefreshGrant) → decode_refresh (encode_refresh g) ≡ some g
unfolding decode_refresh encode_refresh
decode_refresh-encode g =
    rw (as_text-put_text "resource" g.resource _ (field-put_principal "resource" g.principal refl))
      (rw (field-put_text "principal" "resource" g.resource (put_principal g.principal done) refl)
        (rw (decode-put_principal g.principal)))

abbrev pub refresh_codec : Codec RefreshGrant
refresh_codec = record {
  encode = encode_refresh;
  decode = decode_refresh;
  decode-encode = decode_refresh-encode;
}

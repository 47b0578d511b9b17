-- ===== src/Session.antt =====
-- session.go's sessionStore: browser sessions in one stored map, with the principal's name only.
pub mod Laws
use lib_agent_oauth.Prelude.{
  ℕ, ◌+◌, String, ◌≡◌, refl, Bool, true, false, Option, none, some, ◌==◌, ltb, if◌then◌else◌,
}
use lib_agent_oauth.Map
use lib_agent_oauth.Map.{Map}
use lib_agent_oauth.Json.{Json, num, obj, done, member, field}
use lib_agent_oauth.Json.Codec.{
  Codec, members, as_text, as_flag, as_num, put_text, put_flag, as_text-put_text, field-put_text,
  as_flag-put_flag, field-put_flag, ◌>>=◌ as bind_option,
}
use lib_agent_oauth.Exec.{◌>>=◌, ◌>>◌, pure}
use lib_agent_oauth.Env.{Env}
use lib_agent_oauth.Model.{M, PrincipalGrant}
use lib_agent_oauth.JsonMap
use lib_agent_oauth.JsonMap.{Change, drop_where, mutate}
use lib_agent_oauth.Random.{rand_token}

abbrev pub sessions_store_key : String
sessions_store_key = "sessions"

pub record SessionRecord : Type 0 where
  pub principal : String
  pub anonymous : Bool
  pub expires : ℕ

unfoldable pub encode_session : SessionRecord → Json
encode_session r = obj (
    put_text "principal" r.principal
      (put_flag "anonymous" r.anonymous (member "expires" (num r.expires) done)))

unfoldable pub decode_session : Json → Option SessionRecord
decode_session j = bind_option (members j) λ m.
    bind_option (as_text (field "principal" m)) λ principal.
      bind_option (as_flag (field "anonymous" m)) λ anonymous.
        bind_option (as_num (field "expires" m)) λ expires.
          some (record { principal = principal; anonymous = anonymous; expires = expires })

pub decode_session-encode : (r : SessionRecord) → decode_session (encode_session r) ≡ some r
unfolding decode_session encode_session
decode_session-encode r =
    rw
      (as_text-put_text "principal" r.principal _
        (field-put_flag "principal" "anonymous" r.anonymous _ refl))
      (rw (field-put_text "anonymous" "principal" r.principal _ refl) (
        rw (as_flag-put_flag "anonymous" r.anonymous _ refl) (
          rw (field-put_text "expires" "principal" r.principal _ refl)
            (rw (field-put_flag "expires" "anonymous" r.anonymous _ refl)))))

abbrev pub session_codec : Codec SessionRecord
session_codec = record {
  encode = encode_session;
  decode = decode_session;
  decode-encode = decode_session-encode;
}

-- `s.now().After(r.Expires)`
abbrev pub expired : ℕ → SessionRecord → Bool
expired now r = ltb r.expires now

abbrev pub of_principal : String → SessionRecord → Bool
of_principal name r = r.principal == name

-- The record of a verified identity.
abbrev pub session_of : ℕ → ℕ → PrincipalGrant → SessionRecord
session_of now ttl p = record { principal = p.name; anonymous = p.name == ""; expires = now + ttl }

module _ ⦃env : Env⦄ where
  -- Expired records are pruned on the write that adds one.
  abbrev pub start_session :
      ℕ → SessionRecord → String → Map SessionRecord → Change (Unit {0}) SessionRecord
  start_session now rec token m = (tt, some (Map.insert token rec (Map.delete_if (expired now) m)))

  unfoldable pub issue : ℕ → PrincipalGrant → M String
  issue ttl p w =
      (do
        token ← rand_token 32
        mutate session_codec sessions_store_key (start_session w.now (session_of w.now ttl p) token)
        pure token)
        w

  -- The record, if it has not expired.
  abbrev pub live : ℕ → Option SessionRecord → Option SessionRecord
  live now none = none
  live now (some r) = if expired now r then none else some r

  unfoldable pub lookup : String → M (Option SessionRecord)
  lookup token w =
      (do o ← JsonMap.get session_codec sessions_store_key token; pure (live w.now o)) w

  unfoldable pub remove_for_principal : String → M (Unit {0})
  remove_for_principal name =
      if name == ""
      then pure tt
      else mutate session_codec sessions_store_key (drop_where (of_principal name))

-- ===== src/Token/Laws.antt =====
-- Laws of token.go: MintFor and Validate.
use lib_agent_oauth.Prelude.{
  ℕ, ◌+◌, ◌*◌, String, ◌≡◌, ◌≢◌, refl, ap, ◌∙◌, Bool, true, false, ◌&&◌, ◌||◌, Option, none, some,
  ◌==◌, contains, ltb, if◌then◌else◌, eq_refl,
}
use lib_agent_oauth.Exec.{Result, ok, err}
use lib_agent_oauth.Env.{Env}
use lib_agent_oauth.Jwt.{Jwt, Method, hs256, ed_dsa, Key, Claims, ParserOptions}
use lib_agent_oauth.Model.{World, PrincipalGrant}
use lib_agent_oauth.Token.{
  signed, sign_with, verified, verified_at, Issuer, Verified, claims_of, mint_for, options_of,
  validate,
}

abbrev pub same_method : Method → Method → Bool
same_method hs256 hs256 = true
same_method hs256 ed_dsa = false
same_method ed_dsa hs256 = false
same_method ed_dsa ed_dsa = true

abbrev not_expired : Option ℕ → ℕ → Bool
not_expired none now = false
not_expired (some e) now = ltb now (e * 1000000000)

-- The options of token.go accept the claims of a token at a time: its method is the valid one, its
-- issuer and audience are the expected ones, and it has an expiry, in seconds, that is not reached.
abbrev pub accepts : ParserOptions → Method → Claims → ℕ → Bool
accepts o m c now =
    same_method m o.valid_method
    && ((c.issuer == o.issuer) && (contains c.audience o.audience && not_expired c.expires_at now))

-- golang-jwt reads back the claims that were signed, with the key that belongs to the signing key,
-- exactly if the options, which expect some issuer and audience, accept them.
pub record ReadsBack (j : Jwt) (m : Method) (signing verifying : Key) (c : Claims) : Type 0 where
  pub parse-sign :
      (o : ParserOptions) (now : ℕ) (t : String)
      → o.issuer ≢ ""
      → o.audience ≢ ""
      → j.sign m signing c ≡ some t
      → j.parse o verifying now t ≡ (if accepts o m c now then some c else none)

module _ ⦃env : Env⦄ where
  same_method_refl : (m : Method) → same_method m m ≡ true
  same_method_refl hs256 = refl
  same_method_refl ed_dsa = refl

  -- What a resource server makes of a token.
  abbrev pub answer : Bool → Verified → Result Verified
  answer true v = ok v
  answer false v = err "token is invalid"

  signed-ok : (o : Option String) {t : String} → signed o ≡ ok t → o ≡ some t
  unfolding signed
  signed-ok none h = cc
  signed-ok (some x) h = cc

  -- What the claims of a token are taken for, if they are accepted.
  verified-if :
      (b : Bool) (c : Claims) (e : ℕ)
      → c.expires_at ≡ some e
      → verified (if b then some c else none)
        ≡ answer b (record {
          client_id = c.subject;
          scope = c.scope;
          grant = record { name = c.principal; binding = c.binding };
          expires_at = e;
        })
  unfolding verified verified_at
  verified-if true c e h = rw h refl
  verified-if false c e h = refl

  accepts-own :
      (m n : Method) (iss iss' : String) (rest : Bool)
      → n ≡ m
      → iss' ≡ iss
      → (same_method m n && ((iss == iss') && rest)) ≡ rest
  accepts-own m n iss iss' rest e f = rw (e, f) (rw (same_method_refl m, eq_refl) refl)

  -- An issuer whose key signs mints a token.
  pub mint_for-succeeds :
      (i : Issuer) (client_id scope audience : String) (p : PrincipalGrant) (k : Key)
      (w : World env.S)
      → i.sign_key ≡ some k
      → ((c : Claims) → (t : String) × (env.jwt.sign i.method k c ≡ some t))
      → (t : String) × (mint_for i client_id scope audience p w ≡ (ok t, w))
  unfolding mint_for sign_with signed
  mint_for-succeeds i client_id scope audience p k w has signs =
      let (t, e) = signs (claims_of i w.now client_id scope audience p) in (t, rw has (rw e refl))

  -- A token that an issuer minted for an audience is valid at a verifier with the same method and
  -- issuer and the key that belongs to the signing key, exactly if the verifier's audience is this
  -- one and the expiry, cut to seconds, is not reached; it then stands for the client, the scope and
  -- the grant that it was minted for.
  pub mint_for-validate :
      (i v : Issuer) (client_id scope audience : String) (p : PrincipalGrant) (k : Key)
      (w w' : World env.S) (t : String) (now : ℕ)
      → i.sign_key ≡ some k
      → v.method ≡ i.method
      → v.issuer ≡ i.issuer
      → v.issuer ≢ ""
      → v.audience ≢ ""
      → ReadsBack env.jwt i.method k v.verify_key (claims_of i w.now client_id scope audience p)
      → mint_for i client_id scope audience p w ≡ (ok t, w')
      → validate v now t
        ≡ answer
            ((audience == v.audience)
              && ltb now (env.jwt.numeric_date (w.now + i.ttl) * 1000000000))
            (record {
              client_id = client_id;
              scope = scope;
              grant = p;
              expires_at = env.jwt.numeric_date (w.now + i.ttl);
            })
  unfolding mint_for validate claims_of sign_with
  mint_for-validate i v client_id scope audience p k w w' t now has method issuer some_issuer
        some_audience reads h =
      let c = claims_of i w.now client_id scope audience p in
      let identity : Verified = record {
        client_id = client_id;
        scope = scope;
        grant = p;
        expires_at = env.jwt.numeric_date (w.now + i.ttl);
      } in
      let done = ap (λ (r : Result String × World env.S). r.0) h in
      let made = signed-ok (env.jwt.sign i.method k c) (rw has at done) in
      let parsed = reads.parse-sign (options_of v) now t some_issuer some_audience made in
      let same =
        accepts-own i.method v.method i.issuer v.issuer
          (contains c.audience v.audience && not_expired c.expires_at now) method issuer in
      ap verified parsed
      ∙ verified-if (accepts (options_of v) i.method c now) c (env.jwt.numeric_date (w.now + i.ttl))
          refl
      ∙ ap (λ b. answer b identity) (same ∙ only (audience == v.audience) _)
    where
      only : (a rest : Bool) → ((a || false) && rest) ≡ (a && rest)
      only true rest = refl
      only false rest = refl

  -- What a verifier makes of a token of any issuer, as far as the library reads it back as the
  -- options accept its claims.
  pub mint_for-read :
      (i v : Issuer) (client_id scope audience : String) (p : PrincipalGrant) (k : Key)
      (w w' : World env.S) (t : String) (now : ℕ)
      → i.sign_key ≡ some k
      → (env.jwt.sign i.method k (claims_of i w.now client_id scope audience p) ≡ some t
          → env.jwt.parse (options_of v) v.verify_key now t ≡ (
              if accepts (options_of v) i.method (claims_of i w.now client_id scope audience p) now
              then some (claims_of i w.now client_id scope audience p)
              else none))
      → mint_for i client_id scope audience p w ≡ (ok t, w')
      → validate v now t
        ≡ answer
            (same_method i.method v.method
              && ((i.issuer == v.issuer)
                  && ((audience == v.audience)
                      && ltb now (env.jwt.numeric_date (w.now + i.ttl) * 1000000000))))
            (record {
              client_id = client_id;
              scope = scope;
              grant = p;
              expires_at = env.jwt.numeric_date (w.now + i.ttl);
            })
  unfolding mint_for validate claims_of sign_with
  mint_for-read i v client_id scope audience p k w w' t now has reads h =
      let c = claims_of i w.now client_id scope audience p in
      let identity : Verified = record {
        client_id = client_id;
        scope = scope;
        grant = p;
        expires_at = env.jwt.numeric_date (w.now + i.ttl);
      } in
      let done = ap (λ (r : Result String × World env.S). r.0) h in
      let made = signed-ok (env.jwt.sign i.method k c) (rw has at done) in
      ap verified (reads made)
      ∙ verified-if (accepts (options_of v) i.method c now) c (env.jwt.numeric_date (w.now + i.ttl))
          refl
      ∙ ap (λ b. answer (same_method i.method v.method && ((i.issuer == v.issuer) && b)) identity)
          (only (audience == v.audience) _)
    where
      only : (a rest : Bool) → ((a || false) && rest) ≡ (a && rest)
      only true rest = refl
      only false rest = refl

  -- An issuer without a signing key mints nothing.
  pub mint_for-verify_only :
      (i : Issuer) (client_id scope audience : String) (p : PrincipalGrant) (w : World env.S)
      → i.sign_key ≡ none
      → mint_for i client_id scope audience p w
        ≡ (err "oauth: verify-only issuer cannot mint tokens", w)
  unfolding mint_for sign_with
  mint_for-verify_only i client_id scope audience p w h = rw h refl

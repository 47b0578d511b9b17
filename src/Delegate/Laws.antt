-- ===== src/Delegate/Laws.antt =====
-- Laws of resource.go: what a resource server behind a host checks.
use Prim.Native.String.{◌++◌}
use lib_agent_oauth.Prelude.{
  ℕ, ◌+◌, ◌*◌, String, ◌≡◌, ◌≢◌, sym, ap, subst, ◌∙◌, true, Bool-cases, inl, inr, none, ltb, ◌&&◌,
  some, List, length, ◌==◌, eqb, if◌then◌else◌, ne_of_test, arith,
}
use lib_agent_oauth.Text.{trim_slash}
use lib_agent_oauth.Exec.{Result, ok, err}
use lib_agent_oauth.Env.{Env}
use lib_agent_oauth.Model.{World, PrincipalGrant}
use lib_agent_oauth.Jwt.{Jwt, Method, Key, Claims, ParserOptions, public_key, ed_dsa}
use lib_agent_oauth.Token.{Issuer, claims_of, options_of, mint_for, validate}
use lib_agent_oauth.Token.Laws.{same_method, accepts, answer, mint_for-read, mint_for-verify_only}
use lib_agent_oauth.Delegate.{
  has_prefix, new_ed25519_verifier, issuer_public_key, RsConfig, ResourceServer, with_verifier,
  new_resource_server,
}

-- What a delegate is: it sits under its host, checks for its own audience, and has no signing key.
pub record IsDelegate (c : RsConfig) (r : ResourceServer) : Type 0 where
  pub issuer_named : trim_slash c.issuer_url ≢ ""
  pub resource_named : trim_slash c.resource ≢ ""
  pub under_host : has_prefix (trim_slash c.resource) (trim_slash c.issuer_url ++ "/") ≡ true
  pub key_size : length c.verify_key ≡ 32
  pub issuer : r.verifier.issuer ≡ trim_slash c.issuer_url
  pub audience : r.verifier.audience ≡ trim_slash c.resource
  pub method : r.verifier.method ≡ ed_dsa
  pub verify_key : r.verifier.verify_key ≡ public_key c.verify_key
  pub verify_only : r.verifier.sign_key ≡ none
  pub hands_on : issuer_public_key r.verifier ≡ some c.verify_key

eqb-eq : (a b : ℕ) → eqb a b ≡ true → a ≡ b
eqb-eq a b h = ground arith

verifier-IsDelegate :
    (c : RsConfig) (u : String) (r : ResourceServer)
    → trim_slash c.issuer_url ≢ ""
    → trim_slash c.resource ≢ ""
    → has_prefix (trim_slash c.resource) (trim_slash c.issuer_url ++ "/") ≡ true
    → with_verifier u
        (new_ed25519_verifier (trim_slash c.issuer_url) (trim_slash c.resource) c.verify_key)
      ≡ ok r
    → IsDelegate c r
unfolding new_ed25519_verifier issuer_public_key
verifier-IsDelegate c u r named target under h = elim (Bool-cases (eqb (length c.verify_key) 32)) [
  | inr bad ↦ absurd (cc (rw bad at h))
  | inl size ↦
      let is = ok_eq (rw size at h) in
      record {
        issuer_named = named;
        resource_named = target;
        under_host = under;
        key_size = eqb-eq (length c.verify_key) 32 size;
        issuer = ap (λ (x : ResourceServer). x.verifier.issuer) (sym is);
        audience = ap (λ (x : ResourceServer). x.verifier.audience) (sym is);
        method = ap (λ (x : ResourceServer). x.verifier.method) (sym is);
        verify_key = ap (λ (x : ResourceServer). x.verifier.verify_key) (sym is);
        verify_only = ap (λ (x : ResourceServer). x.verifier.sign_key) (sym is);
        hands_on = ap (λ (x : ResourceServer). issuer_public_key x.verifier) (sym is);
      }
]
  where
    ok_eq : {a b : ResourceServer} → Result.ok a ≡ ok b → a ≡ b
    ok_eq h = cc

new_resource_server-IsDelegate :
    (c : RsConfig) (r : ResourceServer) → new_resource_server c ≡ ok r → IsDelegate c r
unfolding new_resource_server
new_resource_server-IsDelegate c r h = elim (Bool-cases (trim_slash c.issuer_url == "")) [
  | inl blank ↦ absurd (cc (rw blank at h))
  | inr named ↦ elim (Bool-cases (trim_slash c.resource == "")) [
    | inl blank ↦ absurd (cc (rw (named, blank) at h))
    | inr target ↦
        elim (Bool-cases (has_prefix (trim_slash c.resource) (trim_slash c.issuer_url ++ "/"))) [
          | inr out ↦ absurd (cc (rw (named, target, out) at h))
          | inl under ↦
              verifier-IsDelegate c _ r (ne_of_test (trim_slash c.issuer_url) "" named)
                (ne_of_test (trim_slash c.resource) "" target) under
                (rw (named, target, under) at h)
        ]
  ]
]

-- golang-jwt, told to accept EdDSA only, with a public key: it reads back the claims that were
-- signed, with the key that belongs to the public key or by another method, exactly if the options,
-- which expect some issuer and audience, accept them. Of other options nothing is known.
pub record ReadsEdDsa (j : Jwt) (m : Method) (signing : Key) (verify_key : List ℕ) (c : Claims)
    : Type 0 where
  pub parse-sign :
      (o : ParserOptions) (now : ℕ) (t : String)
      → o.valid_method ≡ ed_dsa
      → o.issuer ≢ ""
      → o.audience ≢ ""
      → j.sign m signing c ≡ some t
      → j.parse o (public_key verify_key) now t ≡ (if accepts o m c now then some c else none)

module _ ⦃env : Env⦄ where
  -- What a delegate makes of a token, whoever minted it, as far as golang-jwt reads it back: it is
  -- valid exactly if it was signed by EdDSA, its issuer is the host's trimmed URL, its audience is
  -- the delegate's own trimmed resource, and its expiry, cut to seconds, is not reached; it then
  -- stands for what it was minted for. The resource is under the host's URL, and the delegate itself
  -- mints nothing.
  pub new_resource_server-checks :
      (cfg : RsConfig) (r : ResourceServer) (i : Issuer) (client_id scope audience : String)
      (p : PrincipalGrant) (k : Key) (w w' : World env.S) (t : String) (now : ℕ)
      → new_resource_server cfg ≡ ok r
      → i.sign_key ≡ some k
      → ReadsEdDsa env.jwt i.method k cfg.verify_key (claims_of i w.now client_id scope audience p)
      → mint_for i client_id scope audience p w ≡ (ok t, w')
      → (validate r.verifier now t
          ≡ answer
              (same_method i.method ed_dsa
                && ((i.issuer == trim_slash cfg.issuer_url)
                    && ((audience == trim_slash cfg.resource)
                        && ltb now (env.jwt.numeric_date (w.now + i.ttl) * 1000000000))))
              (record {
                client_id = client_id;
                scope = scope;
                grant = p;
                expires_at = env.jwt.numeric_date (w.now + i.ttl);
              }))
        × (has_prefix (trim_slash cfg.resource) (trim_slash cfg.issuer_url ++ "/") ≡ true)
        × (mint_for r.verifier client_id scope audience p w
            ≡ (err "oauth: verify-only issuer cannot mint tokens", w))
  new_resource_server-checks cfg r i client_id scope audience p k w w' t now built has reads
        minted =
      let d = new_resource_server-IsDelegate cfg r built in
      let c = claims_of i w.now client_id scope audience p in
      let read =
        mint_for-read i r.verifier client_id scope audience p k w w' t now has
          (λ made.
            subst
              (λ key.
                env.jwt.parse (options_of r.verifier) key now t
                ≡ (if accepts (options_of r.verifier) i.method c now then some c else none))
              (sym d.verify_key)
              (reads.parse-sign (options_of r.verifier) now t d.method
                (λ e. d.issuer_named (sym d.issuer ∙ e))
                (λ e. d.resource_named (sym d.audience ∙ e)) made))
          minted in
      (
        read ∙ (λ j.
            answer
              (same_method i.method (d.method j)
                && ((i.issuer == d.issuer j)
                    && ((audience == d.audience j)
                        && ltb now (env.jwt.numeric_date (w.now + i.ttl) * 1000000000))))
              (record {
                client_id = client_id;
                scope = scope;
                grant = p;
                expires_at = env.jwt.numeric_date (w.now + i.ttl);
              })),
        d.under_host,
        mint_for-verify_only r.verifier client_id scope audience p w d.verify_only,
      )

-- ===== src/Pkce.antt =====
-- pkce.go: the S256 proof of possession, the only one that is accepted.
use lib_agent_oauth.Prelude.{
  String, ◌≡◌, ◌≢◌, ◌↔◌, Bool, true, false, not, ◌||◌, ◌==◌, arith, eq_iff, if◌then◌else◌,
}
use lib_agent_oauth.Env.{Env}
use lib_agent_oauth.Encode.{encode64}

abbrev pub pkce_method_s256 : String
pkce_method_s256 = "S256"

module _ ⦃env : Env⦄ where
  -- The comparison in constant time is a comparison.
  unfoldable pub verify_pkce : String → String → String → Bool
  verify_pkce challenge method verifier =
      if not (method == pkce_method_s256) || (challenge == "" || verifier == "")
      then false
      else encode64 (env.sha256 verifier) == challenge

  -- Exactly the S256 method with a verifier that is not empty and that hashes to the challenge is
  -- accepted, and no challenge that is empty.
  pub verify_pkce_iff :
      (challenge method verifier : String)
      → (verify_pkce challenge method verifier ≡ true) ↔ (
          (method ≡ "S256")
          × (challenge ≢ "")
          × (verifier ≢ "")
          × (encode64 (env.sha256 verifier) ≡ challenge))
  unfolding verify_pkce
  verify_pkce_iff challenge method verifier = (
    λ h. (
      ground (arith, eq_iff method "S256"),
      ground (arith, eq_iff challenge ""),
      ground (arith, eq_iff verifier ""),
      ground (arith, eq_iff (encode64 (env.sha256 verifier)) challenge),
    ),
    λ (m, c, v, e). ground (
      arith,
      eq_iff method "S256",
      eq_iff challenge "",
      eq_iff verifier "",
      eq_iff (encode64 (env.sha256 verifier)) challenge,
    ),
  )

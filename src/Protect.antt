-- ===== src/Protect.antt =====
-- protect.go: the gate before the protected handler, and httputil.go's bearerToken.
pub mod Laws
use lib_agent_oauth.Prelude.{
  ℕ, ◌+◌, code, String, ◌≡◌, ◌≢◌, ◌↔◌, refl, ap, Bool, true, false, ◌&&◌, inl, inr, Bool-cases,
  ◌==◌, leb, ltb, eqb, ne_of_test, ne_test, if◌then◌else◌,
}
use Prim.Native.String.{[], ◌∷◌}
use lib_agent_oauth.Text.{trim_space, take, drop, count}
use lib_agent_oauth.Exec.{Result, ok, err}
use lib_agent_oauth.Http.{Request, Reply, oauth_error_reply}
use lib_agent_oauth.Token.{Verified}

-- Case folding of the ASCII letters. No other character folds to a letter of `Bearer`.
abbrev fold : ℕ → ℕ
fold n = if leb b'A' n && leb n b'Z' then n + 32 else n

-- `strings.EqualFold` against an ASCII text.
unfoldable pub equal_fold : String → String → Bool
equal_fold [] [] = true
equal_fold [] (d ∷ t) = false
equal_fold (c ∷ s) [] = false
equal_fold (c ∷ s) (d ∷ t) = eqb (fold (code c)) (fold (code d)) && equal_fold s t

abbrev pub bearer_prefix : String
bearer_prefix = "Bearer "

unfoldable pub bearer_token : Request → String
bearer_token r =
    if ltb 7 (count r.authorization) && equal_fold (take 7 r.authorization) bearer_prefix
    then trim_space (drop 7 r.authorization)
    else ""

-- What becomes of a request: the wrapped handler serves it with the identity in its context, or it
-- is challenged with a reply and the URL in the header `WWW-Authenticate`.
pub data Gate : Type 0 where
  served : Verified → Gate
  challenged : Reply → String → Gate

-- challengeUnauthorized
abbrev pub challenge_unauthorized : String → String → Gate
challenge_unauthorized prm_url desc =
    challenged (oauth_error_reply 401 "invalid_token" desc) prm_url

abbrev pub admitted : String → Result Verified → Gate
admitted prm_url (ok v) = served v
admitted prm_url (err e) = challenge_unauthorized prm_url "invalid or expired token"

-- protectHandler
unfoldable pub protect_handler : (String → Result Verified) → String → Request → Gate
protect_handler validate prm_url r =
    if bearer_token r == ""
    then challenge_unauthorized prm_url "missing bearer token"
    else admitted prm_url (validate (bearer_token r))

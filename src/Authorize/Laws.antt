-- ===== src/Authorize/Laws.antt =====
-- What the gates of an authorization request let through.
use lib_agent_oauth.Prelude.{
  false≢true, ◌≡◌, ◌≢◌, refl, ap, inl, inr, true, not, ◌||◌, Bool-cases, Option, none, some, arith,
  ◌==◌, eq_iff, eq_of_test, contains,
}
use lib_agent_oauth.Exec.{Result, ok, err}
use lib_agent_oauth.Exec.Keeps.{Keeps}
use lib_agent_oauth.Env.{Env}
use lib_agent_oauth.Model.{World}
use lib_agent_oauth.Clients
use lib_agent_oauth.Clients.{Client, allows_redirect}
use lib_agent_oauth.Frame.{IsFrame, get_client-Keeps}
use lib_agent_oauth.Pkce.{pkce_method_s256}
use lib_agent_oauth.AuthParams.{AuthParams}
use lib_agent_oauth.Authorize.{validate_auth_params, check_client, validate_client_redirect}

-- What the parameters must be for a code: a code is asked for, with an S256 challenge.
pub record IsCodeRequest (p : AuthParams) : Type 0 where
  pub response_type : p.response_type ≡ "code"
  pub challenge : p.code_challenge ≢ ""
  pub challenge_method : p.code_challenge_method ≡ "S256"

pub validate_auth_params-IsCodeRequest :
    (p : AuthParams) → (validate_auth_params p == "") ≡ true → IsCodeRequest p
unfolding validate_auth_params
validate_auth_params-IsCodeRequest p h = elim (Bool-cases (p.response_type == "code")) [
  | inr other ↦ absurd (false≢true (rw other at h))
  | inl kind ↦
      elim (Bool-cases
        (p.code_challenge == "" || not (p.code_challenge_method == pkce_method_s256))) [
          | inl bad ↦ absurd (false≢true (rw (kind, bad) at h))
          | inr good ↦ record {
            response_type = eq_of_test p.response_type "code" kind;
            challenge = ground (arith, eq_iff p.code_challenge "");
            challenge_method = ground (arith, eq_iff p.code_challenge_method "S256");
          }
        ]
]

module _ ⦃env : Env⦄ where
  check_client-ok :
      (p : AuthParams) (r : Result (Option Client)) {c : Client}
      → check_client p r ≡ ok c
      → (r ≡ ok (some c)) × (contains c.redirect_uris p.redirect_uri ≡ true)
  unfolding check_client allows_redirect
  check_client-ok p (err e) h = cc
  check_client-ok p (ok none) h = cc
  check_client-ok p (ok (some x)) h = ground arith

  pub validate_client_redirect-ok :
      (p : AuthParams) (w v : World env.S) {c : Client}
      → validate_client_redirect p w ≡ (ok c, v)
      → (Clients.get p.client_id w ≡ (ok (some c), v))
        × (contains c.redirect_uris p.redirect_uri ≡ true)
  unfolding validate_client_redirect
  validate_client_redirect-ok p w v {c} h = elim (Bool-cases (p.client_id == "")) [
    | inl blank ↦
        let bad : Result.err "missing client_id" ≡ ok c =
          ap (λ (x : Result Client × World env.S). x.0) (rw blank at h) in
        cc
    | inr named ↦
        let same = rw named at h in
        let (got, allowed) =
          check_client-ok p (Clients.get p.client_id w).0
            (ap (λ (x : Result Client × World env.S). x.0) same) in
        (λ i. (got i, ap (λ (x : Result Client × World env.S). x.1) same i), allowed)
  ]

  pub validate_client_redirect-Keeps :
      {B : Type 0} (part : World env.S → B) (frame : IsFrame part) (p : AuthParams)
      → Keeps part (validate_client_redirect p)
  unfolding validate_client_redirect
  validate_client_redirect-Keeps part frame p = record {
    at = λ w. elim (Bool-cases (p.client_id == "")) [
      | inl e ↦ rw e refl
      | inr e ↦ rw e ((get_client-Keeps part frame p.client_id).at w)
    ];
  }

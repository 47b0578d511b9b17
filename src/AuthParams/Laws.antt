-- ===== src/AuthParams/Laws.antt =====
-- Laws of authparams.go and authorize_step.go.
use lib_agent_oauth.Prelude.{◌≡◌, refl}
use lib_agent_oauth.Map
use lib_agent_oauth.Http.{get}
use lib_agent_oauth.AuthParams.{
  AuthParams, parse_auth_params, hidden_fields, classify_step, initial_approval,
}

-- The hidden fields of the approval form are parsed as the request that it was made for, and a form
-- with only them is the initial approval.
pub parse-hidden_fields :
    (p : AuthParams)
    → (parse_auth_params (hidden_fields p) ≡ p)
      × (classify_step (hidden_fields p) ≡ initial_approval)
unfolding parse_auth_params hidden_fields classify_step get Map.lookup
parse-hidden_fields p = (refl, refl)

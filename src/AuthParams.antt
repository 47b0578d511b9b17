-- ===== src/AuthParams.antt =====
-- authparams.go and authorize_step.go: the parameters of an authorization request, and the round of
-- the approval that a form belongs to.
pub mod Laws
use lib_agent_oauth.Prelude.{String, Bool, true, false, ◌&&◌, [], ◌∷◌, ◌==◌, if◌then◌else◌}
use lib_agent_oauth.Map
use lib_agent_oauth.Map.{Map}
use lib_agent_oauth.Http.{Values, get}

pub record AuthParams : Type 0 where
  pub client_id : String
  pub redirect_uri : String
  pub state : String
  pub scope : String
  pub resource : String
  pub code_challenge : String
  pub code_challenge_method : String
  pub response_type : String

-- parseAuthParams
unfoldable pub parse_auth_params : Values → AuthParams
parse_auth_params v = record {
  client_id = get v "client_id";
  redirect_uri = get v "redirect_uri";
  state = get v "state";
  scope = get v "scope";
  resource = get v "resource";
  code_challenge = get v "code_challenge";
  code_challenge_method = get v "code_challenge_method";
  response_type = get v "response_type";
}

-- hiddenFields
unfoldable pub hidden_fields : AuthParams → Map String
hidden_fields p =
    ("client_id", p.client_id)
    ∷ ("redirect_uri", p.redirect_uri)
    ∷ ("response_type", p.response_type)
    ∷ ("code_challenge", p.code_challenge)
    ∷ ("code_challenge_method", p.code_challenge_method)
    ∷ ("state", p.state)
    ∷ ("scope", p.scope)
    ∷ ("resource", p.resource)
    ∷ []

-- hiddenFieldsWithCode
unfoldable pub hidden_fields_with_code : AuthParams → String → Map String
unfolding hidden_fields
hidden_fields_with_code p pairing_code = Map.insert "pairing_code" pairing_code (hidden_fields p)

pub data AuthorizeStep : Type 0 where
  initial_approval enroll_fields enroll_choice binding_choice : AuthorizeStep

-- classifyStep
unfoldable pub classify_step : Values → AuthorizeStep
classify_step form =
    if get form "enroll" == "1" && get form "enroll_choice_round" == "1"
    then enroll_choice
    else if get form "enroll" == "1"
    then enroll_fields
    else if get form "choose" == "1"
    then binding_choice
    else initial_approval

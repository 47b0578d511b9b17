-- ===== src/EnrollView/Echo.antt =====
-- Laws of enroll_view.go: the form that is shown again after a submission.
use lib_agent_oauth.Prelude.{In, String, ◌≡◌, true, Bool-cases, List, ◌==◌, if◌then◌else◌}
use lib_agent_oauth.Prelude
use lib_agent_oauth.Map
use lib_agent_oauth.Map.{Map}
use lib_agent_oauth.Http.{FieldView, ModeView}
use lib_agent_oauth.Enrollment.{CredentialField, CredentialMode, Enrollment}
use lib_agent_oauth.EnrollView.{field_input_name}
use lib_agent_oauth.EnrollView.Laws.{read}

-- The input that a field has in the form that is shown again.
pub record HasInput (m : CredentialMode) (get : String → String) (f : CredentialField)
    (views : List ModeView) : Type 0 where
  pub in_mode : ModeView
  pub input : FieldView
  pub shown : In in_mode views
  pub has : In input in_mode.fields
  pub of_mode : in_mode.key ≡ m.key
  pub selected : in_mode.selected ≡ true
  pub name : input.name ≡ field_input_name m.key f.key
  pub secret : input.secret ≡ f.secret
  pub value : input.value ≡ (if f.secret then "" else read m.key get f)

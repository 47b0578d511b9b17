-- ===== src/EnrollView.antt =====
-- enroll_view.go: the inputs of an enrollment form, and what is read back from them.
pub mod Laws
pub mod Echo
use Prim.Native.String.{◌++◌}
use lib_agent_oauth.Prelude.{
  String, Bool, true, false, not, ◌&&◌, Option, none, some, List, [], ◌∷◌, ◌==◌, if◌then◌else◌,
}
use lib_agent_oauth.Prelude
use lib_agent_oauth.Text.{trim_space}
use lib_agent_oauth.Map
use lib_agent_oauth.Map.{Map}
use lib_agent_oauth.Http.{FieldView, ModeView}
use lib_agent_oauth.Enrollment.{CredentialField, CredentialMode, CredentialDescriptor}

-- fieldInputName
unfoldable pub field_input_name : String → String → String
field_input_name mode_key field_key = "field_" ++ (mode_key ++ ("_" ++ field_key))

-- `values[k]`: of a missing key, the empty text.
abbrev pub value_or_blank : Option String → String
value_or_blank none = ""
value_or_blank (some v) = v

unfoldable pub field_view : String → Map String → CredentialField → FieldView
field_view mode_key values f = record {
  name = field_input_name mode_key f.key;
  label = f.label;
  help = f.help;
  snippet = f.snippet;
  value = if f.secret then "" else value_or_blank (Map.lookup f.key values);
  secret = f.secret;
  optional = f.optional;
}

unfoldable pub mode_view : String → Map String → CredentialMode → ModeView
mode_view selected values m = record {
  key = m.key;
  label = m.label;
  selected = m.key == selected;
  fields = Prelude.map (field_view m.key values) m.fields;
}

-- enrollModeViews
unfoldable pub enroll_mode_views : CredentialDescriptor → String → Map String → List ModeView
enroll_mode_views d selected values = Prelude.map (mode_view selected values) d.modes

-- What has been read of a mode's fields.
pub record Collected : Type 0 where
  pub values : Map String
  pub non_secret : Map String
  -- the labels of the required fields that are blank, in order
  pub missing : List String

-- One round of the loop, with the trimmed value `v` of the field.
abbrev pub collect_field : CredentialField → String → Collected → Collected
collect_field f v c = record {
  values = Map.insert f.key v c.values;
  non_secret = if f.secret then c.non_secret else Map.insert f.key v c.non_secret;
  missing = if v == "" && not f.optional then Prelude.◌++◌ c.missing (f.label ∷ []) else c.missing;
}

unfoldable pub collect_fields :
    String → (String → String) → List CredentialField → Collected → Collected
collect_fields mode_key get [] c = c
collect_fields mode_key get (f ∷ fs) c =
    collect_fields mode_key get fs
      (collect_field f (trim_space (get (field_input_name mode_key f.key))) c)

-- collectModeFields
unfoldable pub collect_mode_fields : CredentialMode → (String → String) → Collected
unfolding collect_fields
collect_mode_fields mode get =
    collect_fields mode.key get mode.fields (record { values = []; non_secret = []; missing = [] })

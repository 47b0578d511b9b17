-- ===== src/Enrollment.antt =====
-- enrollment.go: what an enrollment form asks for, the callback that stores the credentials, and
-- the check of both. A `nil` callback, which `Validate` refuses, cannot be written here.
pub mod Laws
use lib_agent_oauth.Prelude.{
  String, Bool, true, false, ◌&&◌, Option, none, some, List, [], ◌∷◌, ◌==◌, contains, if◌then◌else◌,
}
use lib_agent_oauth.Map.{Map}
use lib_agent_oauth.Exec.{Result, ok, err}
use lib_agent_oauth.Http.{ChoiceOption}
use lib_agent_oauth.Model.{is_empty}

pub record CredentialField : Type 0 where
  pub key : String
  pub label : String
  pub help : String
  pub snippet : String
  pub secret : Bool
  pub optional : Bool

pub record CredentialMode : Type 0 where
  pub key : String
  pub label : String
  pub fields : List CredentialField

pub record CredentialDescriptor : Type 0 where
  pub title : String
  pub intro : String
  pub modes : List CredentialMode

pub record EnrollRequest : Type 0 where
  pub principal : String
  pub mode : String
  pub values : Map String
  pub choice : String
  pub state : String

pub record EnrollChoice : Type 0 where
  pub prompt : String
  pub options : List ChoiceOption
  pub state : String

pub record EnrollResult : Type 0 where
  pub binding : Map String
  pub choice : Option EnrollChoice

-- EnrollFunc: the callback is the embedding program's.
pub record Enrollment : Type 0 where
  pub descriptor : CredentialDescriptor
  pub enroll : EnrollRequest → Result EnrollResult

-- The inner loop of `Validate`, with the field keys seen so far.
unfoldable pub validate_fields : List String → List CredentialField → Result (Unit {0})
validate_fields seen [] = ok tt
validate_fields seen (f ∷ fs) =
    let rest = validate_fields (f.key ∷ seen) fs in
    if f.key == ""
    then err "oauth: enrollment: a field with an empty key"
    else if contains seen f.key
    then err "oauth: enrollment: duplicate field key"
    else rest

-- One round of the outer loop, after the test for a repeated key.
abbrev pub validate_mode : CredentialMode → Result (Unit {0})
validate_mode m =
    if is_empty m.fields
    then err "oauth: enrollment: mode has no fields"
    else validate_fields [] m.fields

abbrev pub and_then : Result (Unit {0}) → Result (Unit {0}) → Result (Unit {0})
and_then (ok _) r = r
and_then (err e) r = err e

-- The outer loop, with the mode keys seen so far.
unfoldable pub validate_modes : List String → List CredentialMode → Result (Unit {0})
validate_modes seen [] = ok tt
validate_modes seen (m ∷ ms) =
    let rest = validate_modes (m.key ∷ seen) ms in
    if m.key == ""
    then err "oauth: enrollment: mode with empty key"
    else if contains seen m.key
    then err "oauth: enrollment: duplicate mode key"
    else and_then (validate_mode m) rest

-- `(*Enrollment).Validate`
unfoldable pub validate : Enrollment → Result (Unit {0})
validate e =
    if is_empty e.descriptor.modes
    then err "oauth: enrollment: descriptor needs at least one mode"
    else validate_modes [] e.descriptor.modes

-- The loop of `mode`.
unfoldable pub find_mode : String → List CredentialMode → Option CredentialMode
find_mode key [] = none
find_mode key (m ∷ ms) = if m.key == key then some m else find_mode key ms

abbrev pub only_mode : List CredentialMode → Option CredentialMode
only_mode (m ∷ []) = some m
only_mode _ = none

abbrev pub or_find : Option CredentialMode → String → List CredentialMode → Option CredentialMode
or_find (some m) key ms = some m
or_find none key ms = find_mode key ms

-- `(*Enrollment).mode`: an empty key selects the only mode.
unfoldable pub mode : Enrollment → String → Option CredentialMode
mode e key =
    or_find (if key == "" then only_mode e.descriptor.modes else none) key e.descriptor.modes

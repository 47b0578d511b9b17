-- ===== src/Choose.antt =====
-- choose_page.go: bindings whose value is a set, and the choice of one member of each.
pub mod Members
pub mod Laws
use Prim.Native.String as Chars
use Prim.Native.String.{◌++◌}
use lib_agent_oauth.Prelude.{
  ℕ, ◌<◌, zero, suc, Char, String, Bool, true, false, not, ◌&&◌, Option, none, some, List, [], ◌∷◌,
  ◌==◌, ltb, length, contains, if◌then◌else◌,
}
use lib_agent_oauth.Text.{is_char, trim_space, is_nil}
use lib_agent_oauth.Map
use lib_agent_oauth.Map.{Map}
use lib_agent_oauth.Principal.Verify.{sorted}

-- bindingSeparator
abbrev pub is_separator : Char → Bool
is_separator c = is_char b',' c

-- `strings.Contains(value, ",")`
unfoldable pub has_separator : String → Bool
has_separator Chars.[] = false
has_separator (Chars.◌∷◌ c s) = if is_separator c then true else has_separator s

-- `strings.Split(value, ",")`, with the characters of the part that is being read.
abbrev pub extend : Char → List String → List String
extend c [] = (Chars.◌∷◌ c Chars.[]) ∷ []
extend c (part ∷ parts) = Chars.◌∷◌ c part ∷ parts

unfoldable pub split : String → List String
split Chars.[] = "" ∷ []
split (Chars.◌∷◌ c s) = let rest = split s in if is_separator c then "" ∷ rest else extend c rest

-- The loop over the parts: trimmed, and not empty.
unfoldable pub members_of : List String → List String
members_of [] = []
members_of (part ∷ parts) =
    let rest = members_of parts in if trim_space part == "" then rest else trim_space part ∷ rest

-- bindingSet
unfoldable pub binding_set : String → List String × Bool
binding_set value =
    if not (has_separator value)
    then ([], false)
    else (members_of (split value), ltb 1 (length (members_of (split value))))

-- The loop of setValuedKeys.
unfoldable pub set_keys : Map String → List String
set_keys [] = []
set_keys ((k, v) ∷ binding) =
    let rest = set_keys binding in if (binding_set v).1 then k ∷ rest else rest

-- setValuedKeys
unfoldable pub set_valued_keys : Map String → List String
set_valued_keys binding = sorted (set_keys binding)

-- What a key is resolved to: the value, or the choice if it is a member of the set.
abbrev pub resolve_choice : String → String → Option String
resolve_choice value chosen =
    if (binding_set value).1
    then if contains (binding_set value).0 chosen then some chosen else none
    else some value

abbrev pub add_resolved : String → Option String → Option (Map String) → Option (Map String)
add_resolved k none r = none
add_resolved k (some v) none = none
add_resolved k (some v) (some m) = some (Map.insert k v m)

-- resolveBindingChoices
unfoldable pub resolve_binding_choices : Map String → (String → String) → Option (Map String)
resolve_binding_choices [] choice = some []
resolve_binding_choices ((k, v) ∷ binding) choice =
    add_resolved k (resolve_choice v (choice k)) (resolve_binding_choices binding choice)

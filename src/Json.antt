-- ===== src/Json.antt =====
-- JSON as `encoding/json` reads and writes it for the stored maps. A document is its tree; the
-- text of a document is printed and parsed by the standard library (`Env`). An object read has
-- each name once, in any order, as `json.Marshal` writes it.
pub mod Codec
use lib_agent_oauth.Prelude.{ℕ, String, Option, none, some, Bool, ◌==◌, if◌then◌else◌}

mutual
  pub data Json : Type 0 where
    null : Json
    text : String → Json
    num : ℕ → Json
    flag : Bool → Json
    arr : Elements → Json
    obj : Members → Json

  pub data Elements : Type 0 where
    stop : Elements
    element : Json → Elements → Elements

  pub data Members : Type 0 where
    done : Members
    member : String → Json → Members → Members

-- The member of an object under a name; a member that is left out reads as `null`.
abbrev pub field : String → Members → Json
field k done = null
field k (member j v m) = if j == k then v else field k m

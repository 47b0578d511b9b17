-- ===== src/Model.antt =====
-- The data that the components share: principal.go's PrincipalGrant, authcode.go's authGrant,
-- event.go's Event, and the state that a server's requests read and change.
use lib_agent_oauth.Prelude.{ℕ, String, Bool, ◌&&◌, true, false, ◌==◌, List, [], ◌∷◌}
use lib_agent_oauth.Map.{Map}
use lib_agent_oauth.Exec.{Exec}
use lib_agent_oauth.Env.{Env}

-- A `nil` binding and an empty one are told apart nowhere after they are stored.
pub record PrincipalGrant : Type 0 where
  pub name : String
  pub binding : Map String

-- The zero grant: the anonymous operator.
abbrev pub anonymous : PrincipalGrant
anonymous = record { name = ""; binding = [] }

-- `len(m) == 0`
abbrev pub is_empty {ℓ} : {A : Type ℓ} → List A → Bool
is_empty [] = true
is_empty (_ ∷ _) = false

unfoldable pub is_anonymous : PrincipalGrant → Bool
is_anonymous g = g.name == "" && is_empty g.binding

pub record AuthGrant : Type 0 where
  pub client_id : String
  pub redirect_uri : String
  pub code_challenge : String
  pub code_challenge_method : String
  pub scope : String
  pub resource : String
  pub principal : PrincipalGrant
  pub expires_at : ℕ

pub data EventType : Type 0 where
  client_registered paired session_started enrolled authorized : EventType

pub record Event : Type 0 where
  pub type : EventType
  pub principal : String
  pub client : String
  pub resource : String
  pub via : String

-- The secret store, the authorization codes in memory, the number of random reads, the time in
-- nanoseconds, and the events delivered so far, the newest first.
pub record World (S : Type 0) : Type 0 where
  pub store : S
  pub codes : Map AuthGrant
  pub drawn : ℕ
  pub now : ℕ
  pub events : List Event

abbrev pub M : ⦃env : Env⦄ → Type 0 → Type 0
M ⦃env⦄ A = Exec (World env.S) A

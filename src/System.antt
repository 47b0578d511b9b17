-- ===== src/System.antt =====
-- A server as a whole: what happens to its state, in any order. The endpoints of server.go's
-- RegisterRoutes, the operations of the pairing store that an operator runs on it, the passing of
-- time, and a restart, after which no code is left.
pub mod Quiet
pub mod Less
pub mod Origin
pub mod Replay
pub mod Unavailable
pub mod Authorized
use lib_agent_oauth.Prelude.{ℕ, ◌+◌, String, Option, []}
use lib_agent_oauth.Map.{Map}
use lib_agent_oauth.Env.{Env}
use lib_agent_oauth.Model.{World}
use lib_agent_oauth.Http.{Request}
use lib_agent_oauth.Pairing.{rotate, shared_code}
use lib_agent_oauth.Principal.{
  add_principal, set_principal_binding, merge_principal_binding, rotate_principal, remove_principal,
}
use lib_agent_oauth.Server.{Server}
use lib_agent_oauth.Register.{RegisterRequest, handle_register}
use lib_agent_oauth.Grant.{handle_token}
use lib_agent_oauth.Approve.{handle_authorize}

module _ ⦃env : Env⦄ where
  -- One step. Each handler is one step: what a request does to the codes it does under their mutex.
  pub data Step (s : Server) : World env.S → World env.S → Type 0 where
    authorizes : {w : World env.S} (r : Request) → Step s w (handle_authorize s r w).1
    redeems : {w : World env.S} (r : Request) → Step s w (handle_token s r w).1
    registers :
        {w : World env.S} (method : String) (body : Option RegisterRequest)
        → Step s w (handle_register s method body w).1
    shows_code : {w : World env.S} → Step s w (shared_code w).1
    rotates_code : {w : World env.S} → Step s w (rotate w).1
    adds :
        {w : World env.S} (name : String) (binding : Option (Map String))
        → Step s w (add_principal name binding w).1
    binds :
        {w : World env.S} (name : String) (binding : Map String)
        → Step s w (set_principal_binding name binding w).1
    merges :
        {w : World env.S} (name : String) (patch : Map String)
        → Step s w (merge_principal_binding name patch w).1
    rotates : {w : World env.S} (name : String) → Step s w (rotate_principal name w).1
    removes : {w : World env.S} (name : String) → Step s w (remove_principal name w).1
    waits : {w : World env.S} (t : ℕ) → Step s w (record w { now = w.now + t })
    restarts : {w : World env.S} → Step s w (record w { codes = [] })

  -- Any number of steps.
  pub data Reaches (s : Server) (start : World env.S) : World env.S → Type 0 where
    here : Reaches s start start
    then_step : {u v : World env.S} → Reaches s start u → Step s u v → Reaches s start v

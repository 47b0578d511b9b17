-- ===== src/System/Replay.antt =====
-- grant.go: an authorization code that is presented again, whatever happens to the server meanwhile.
use lib_agent_oauth.Prelude.{◌≡◌, ◌⊎◌, inl, inr, ap, ◌∙◌, some, Option-cases}
use lib_agent_oauth.Map
use lib_agent_oauth.Env.{Env}
use lib_agent_oauth.Model.{World, AuthGrant}
use lib_agent_oauth.Http.{Values, get, Request}
use lib_agent_oauth.Server.{Server}
use lib_agent_oauth.Grant.{bad_grant, handle_token}
use lib_agent_oauth.Grant.Replay.{
  grant_auth_code-spends, grant_auth_code-unknown, handle_token-code,
}
use lib_agent_oauth.System.{Reaches}
use lib_agent_oauth.System.Origin.{HasOrigin, reachable-HasNewOrigins}

module _ ⦃env : Env⦄ where
  -- A code can be presented once. After a first POST with it, whatever that was answered, let the
  -- server run in any way. Another POST with the same code is then refused with `invalid_grant`,
  -- unless an authorization request that was approved since the first POST has issued the same code
  -- anew.
  pub handle_token-no_replay :
      (s : Server) (r again : Request) (form later : Values) (w v : World env.S)
      → r.method ≡ "POST"
      → r.form ≡ some form
      → get form "grant_type" ≡ "authorization_code"
      → Reaches s (handle_token s r w).1 v
      → again.method ≡ "POST"
      → again.form ≡ some later
      → get later "grant_type" ≡ "authorization_code"
      → get later "code" ≡ get form "code"
      → ((handle_token s again v).0 ≡ bad_grant "authorization code is invalid or expired")
        ⊎ ((g : AuthGrant) × HasOrigin s (handle_token s r w).1 v.now (get form "code") g
            × (Map.lookup (get form "code") v.codes ≡ some g))
  handle_token-no_replay s r again form later w v post parsed kind run post' parsed' kind' same =
      let spent =
        ap (λ x. Map.lookup (get form "code") x.1.codes)
          (handle_token-code s r form w post parsed kind)
        ∙ grant_auth_code-spends s form w in
      elim (Option-cases (Map.lookup (get form "code") v.codes)) [
        | inl unknown ↦ inl (
            ap (λ x. x.0) (handle_token-code s again later v post' parsed' kind')
            ∙ grant_auth_code-unknown s later v (ap (λ k. Map.lookup k v.codes) same ∙ unknown))
        | inr (g, stored) ↦ inr (
          g,
          (reachable-HasNewOrigins s (handle_token s r w).1 v run).origin (get form "code") g spent
              stored,
          stored,
        )
      ]

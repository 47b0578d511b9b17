-- ===== src/Grant/Keeps.antt =====
-- Which parts of the state the token endpoint leaves alone, once a code has been taken out.
use lib_agent_oauth.Prelude.{String, refl, Option, none, some, arith}
use lib_agent_oauth.Env.{Env}
use lib_agent_oauth.Model.{World, AuthGrant, PrincipalGrant}
use lib_agent_oauth.Http.{Values, get}
use lib_agent_oauth.Http.Laws.{on-Keeps, HandlerKeeps}
use lib_agent_oauth.Exec.Keeps.{Keeps}
use lib_agent_oauth.JsonMap.Keeps.{mutate-Keeps}
use lib_agent_oauth.Frame.{IsFrame}
use lib_agent_oauth.Refresh
use lib_agent_oauth.Refresh.{refresh_store_key}
use lib_agent_oauth.Refresh.Codec.{RefreshGrant, refresh_codec}
use lib_agent_oauth.Refresh.Laws.{issue-Keeps}
use lib_agent_oauth.Token.{Issuer, mint_for}
use lib_agent_oauth.Server.{Server}
use lib_agent_oauth.Grant.{project, issue_tokens, exchange_code, exchange_refresh, grant_refresh}

module _ ⦃env : Env⦄ {B : Type 0} (part : World env.S → B) (frame : IsFrame part) where
  mint_for-Keeps :
      (i : Issuer) (client_id scope resource : String) (p : PrincipalGrant)
      → Keeps part (mint_for i client_id scope resource p)
  unfolding mint_for
  mint_for-Keeps i client_id scope resource p = record { at = λ w. refl }

  issue_tokens-Keeps :
      (s : Server) (client_id scope resource : String) (p : PrincipalGrant)
      → HandlerKeeps part (issue_tokens s client_id scope resource p)
  unfolding issue_tokens
  issue_tokens-Keeps s client_id scope resource p =
      on-Keeps part _ _
        (mint_for s.issuer client_id scope resource (project s.binding_for_resource p resource))
        (mint_for-Keeps s.issuer client_id scope resource
          (project s.binding_for_resource p resource))
        (λ access.
          on-Keeps part _ _ (Refresh.issue client_id scope resource p)
            (issue-Keeps part frame.no_store frame.no_drawn client_id scope resource p)
            (λ refresh. record { at = λ w. refl }) (λ e. record { at = λ w. refl }))
        (λ e. record { at = λ w. refl })

  pub exchange_code-Keeps :
      (s : Server) (form : Values) (o : Option AuthGrant)
      → HandlerKeeps part (exchange_code s form o)
  unfolding exchange_code
  exchange_code-Keeps s form none = record { at = λ w. refl }
  exchange_code-Keeps s form (some g) = record {
    at =
        λ w. ground (arith, (issue_tokens-Keeps s g.client_id g.scope g.resource g.principal).at w);
  }

  exchange_refresh-Keeps :
      (s : Server) (form : Values) (o : Option RefreshGrant)
      → HandlerKeeps part (exchange_refresh s form o)
  unfolding exchange_refresh
  exchange_refresh-Keeps s form none = record { at = λ w. refl }
  exchange_refresh-Keeps s form (some g) = record {
    at =
        λ w. ground (arith, (issue_tokens-Keeps s g.client_id g.scope g.resource g.principal).at w);
  }

  pub grant_refresh-Keeps : (s : Server) (form : Values) → HandlerKeeps part (grant_refresh s form)
  unfolding grant_refresh Refresh.exchange
  grant_refresh-Keeps s form =
      on-Keeps part _ _ (Refresh.exchange (get form "refresh_token"))
        (mutate-Keeps part frame.no_store refresh_codec refresh_store_key _)
        (exchange_refresh-Keeps s form) (λ e. record { at = λ w. refl })

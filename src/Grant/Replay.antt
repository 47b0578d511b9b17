-- ===== src/Grant/Replay.antt =====
-- grant.go: an authorization code that is presented at the token endpoint.
use lib_agent_oauth.Prelude.{◌≡◌, refl, none, some, eq_iff}
use lib_agent_oauth.Map
use lib_agent_oauth.Env.{Env}
use lib_agent_oauth.Model.{World, AuthGrant}
use lib_agent_oauth.Http.{Values, get, Request}
use lib_agent_oauth.AuthCode.{consume, unexpired}
use lib_agent_oauth.AuthCode.Laws.{gone}
use lib_agent_oauth.Server.{Server}
use lib_agent_oauth.Grant.{bad_grant, exchange_code, grant_auth_code, dispatch_grant, handle_token}
use lib_agent_oauth.Frame.{IsFrame}
use lib_agent_oauth.Grant.Keeps.{exchange_code-Keeps}
use lib_agent_oauth.Grant.Code.{without_code}

module _ ⦃env : Env⦄ where
  abbrev codes_of : World env.S → Map.Map AuthGrant
  codes_of w = w.codes

  codes_of-IsFrame : IsFrame codes_of
  codes_of-IsFrame = record {
    no_store = λ w s. refl;
    no_drawn = λ w. refl;
    no_events = λ w l. refl;
  }

  -- Whatever the reply, the code that was presented is gone.
  pub grant_auth_code-spends :
      (s : Server) (form : Values) (w : World env.S)
      → Map.lookup (get form "code") (grant_auth_code s form w).1.codes ≡ none
  unfolding grant_auth_code consume
  grant_auth_code-spends s form w =
      rw
        ((exchange_code-Keeps codes_of codes_of-IsFrame s form _).at
          (without_code (get form "code") w))
        (gone (get form "code") w)

  pub grant_auth_code-unknown :
      (s : Server) (form : Values) (w : World env.S)
      → Map.lookup (get form "code") w.codes ≡ none
      → (grant_auth_code s form w).0 ≡ bad_grant "authorization code is invalid or expired"
  unfolding grant_auth_code consume unexpired exchange_code
  grant_auth_code-unknown s form w h = rw h

  -- Where an authorization_code request goes.
  pub handle_token-code :
      (s : Server) (r : Request) (form : Values) (w : World env.S)
      → r.method ≡ "POST"
      → r.form ≡ some form
      → get form "grant_type" ≡ "authorization_code"
      → handle_token s r w ≡ grant_auth_code s form w
  unfolding handle_token dispatch_grant
  handle_token-code s r form w post parsed kind = rw (
    (eq_iff r.method "POST").1 post,
    parsed,
    (eq_iff (get form "grant_type") "authorization_code").1 kind,
  )

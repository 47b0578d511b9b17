-- ===== src/Grant/Outlives.antt =====
-- grant.go and principal.go: an authorization code whose principal is removed.
use lib_agent_oauth.Prelude.{◌≤◌, ◌≡◌, ◌≢◌, sym, ap, subst, ◌∙◌, Bool, some}
use lib_agent_oauth.Map
use lib_agent_oauth.Exec.{ok}
use lib_agent_oauth.Env.{Env}
use lib_agent_oauth.Model.{World, AuthGrant}
use lib_agent_oauth.Store.{IsLawful}
use lib_agent_oauth.Http.{Values, get, Request}
use lib_agent_oauth.Principal.{remove_principal}
use lib_agent_oauth.Principal.Revoke.{remove_principal-ok}
use lib_agent_oauth.Server.{Server}
use lib_agent_oauth.Grant.{handle_token}
use lib_agent_oauth.Grant.Succeeds.{IsRedeemable, IsWorking, Succeeds, handle_token-Succeeds}

module _ ⦃env : Env⦄ where
  module _ (lawful : IsLawful env.store) where
    -- Removing the principal of an outstanding code, whose name is not empty, leaves the code
    -- redeemable: a POST that redeems it after the removal is answered with 200, and a refresh token
    -- of the removed principal is in the store again, if the store keeps and takes what is written,
    -- the server has a key that signs, and randomness does not fail.
    pub remove_principal-outlived :
        (s : Server) (r : Request) (form : Values) (w w' : World env.S) (g : AuthGrant)
        {removed : Bool}
        → r.method ≡ "POST"
        → r.form ≡ some form
        → get form "grant_type" ≡ "authorization_code"
        → IsRedeemable form w g
        → IsWorking s
        → g.principal.name ≢ ""
        → remove_principal g.principal.name w ≡ (ok removed, w')
        → let (rep, w'') = handle_token s r w' in Succeeds s g rep w''
    remove_principal-outlived s r form w w' g post parsed kind can working named h =
        let (gone, _) = remove_principal-ok lawful g.principal.name w w' named h in
        let still : IsRedeemable form w' g = record {
          stored = ap (Map.lookup (get form "code")) gone.codes ∙ can.stored;
          fresh = subst (λ n. n ≤ g.expires_at) (sym gone.now) can.fresh;
          client = can.client;
          redirect_uri = can.redirect_uri;
          proof = can.proof;
        } in
        handle_token-Succeeds lawful s r form w' g gone.tokens_left post parsed kind still working
          gone.tokens_hold

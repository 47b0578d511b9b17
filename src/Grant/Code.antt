-- ===== src/Grant/Code.antt =====
-- The exchange of an authorization code for tokens.
use lib_agent_oauth.Prelude.{
  ◌≤◌, String, ◌≡◌, refl, inl, inr, true, not, ◌||◌, Bool-cases, Option, none, some, arith, ◌==◌,
  eq_iff, eq_of_test,
}
use lib_agent_oauth.Map
use lib_agent_oauth.Env.{Env}
use lib_agent_oauth.Model.{World, AuthGrant}
use lib_agent_oauth.Http.{Values, get, Request, Reply}
use lib_agent_oauth.AuthCode.{consume, unexpired}
use lib_agent_oauth.AuthCode.Laws.{consume-accepted}
use lib_agent_oauth.Pkce.{verify_pkce}
use lib_agent_oauth.Server.{Server}
use lib_agent_oauth.Grant.{exchange_code, grant_auth_code, dispatch_grant, handle_token}
use lib_agent_oauth.Grant.Issue.{Issued, issue_tokens-Issued, reply_of, not_ok}

module _ ⦃env : Env⦄ where
  -- The state after a code has been taken out.
  abbrev pub without_code : String → World env.S → World env.S
  without_code code w = record w { codes = Map.delete code w.codes }

  -- What a successful exchange of the code in the form stands on.
  pub record Redeemed (s : Server) (form : Values) (w : World env.S) (rep : Reply)
      (w' : World env.S) : Type 0 where
    pub grant : AuthGrant
    pub stored : Map.lookup (get form "code") w.codes ≡ some grant
    pub fresh : w.now ≤ grant.expires_at
    pub client : grant.client_id ≡ get form "client_id"
    pub redirect_uri : grant.redirect_uri ≡ get form "redirect_uri"
    pub proof :
        verify_pkce grant.code_challenge grant.code_challenge_method (get form "code_verifier")
        ≡ true
    pub issued :
        Issued s grant.client_id grant.scope grant.resource grant.principal
          (without_code (get form "code") w)
          rep
          w'

  exchange-Redeemed :
      (s : Server) (form : Values) (w w' : World env.S) (rep : Reply) (o : Option AuthGrant)
      → unexpired w.now (Map.lookup (get form "code") w.codes) ≡ o
      → exchange_code s form o (without_code (get form "code") w) ≡ (rep, w')
      → rep.status ≡ 200
      → Redeemed s form w rep w'
  unfolding exchange_code
  exchange-Redeemed s form w w' rep none e h success =
      absurd (not_ok {n = 400} refl (omega arith) (reply_of h) success)
  exchange-Redeemed s form w w' rep (some g) e h success =
      elim (Bool-cases (
        not (g.client_id == get form "client_id")
        || not (g.redirect_uri == get form "redirect_uri"))) [
          | inl bad ↦ absurd (not_ok {n = 400} refl (omega arith) (reply_of (rw bad at h)) success)
          | inr same ↦
              elim (Bool-cases
                (verify_pkce g.code_challenge g.code_challenge_method (get form "code_verifier"))) [
                  | inr bad ↦
                      absurd (
                        not_ok {n = 400} refl (omega arith) (reply_of (rw (same, bad) at h))
                          success)
                  | inl proof ↦
                      let (stored, fresh) =
                        consume-accepted w.now (Map.lookup (get form "code") w.codes) e in
                      record {
                        grant = g;
                        stored = stored;
                        fresh = fresh;
                        client = ground (arith, eq_iff g.client_id (get form "client_id"));
                        redirect_uri =
                            ground (arith, eq_iff g.redirect_uri (get form "redirect_uri"));
                        proof = proof;
                        issued =
                            issue_tokens-Issued s g.client_id g.scope g.resource g.principal _ w'
                              rep (rw (same, proof) at h) success;
                      }
                ]
        ]

  -- The token endpoint answers an authorization_code request with tokens only for a POST with a
  -- live code, from the client and for the redirect URI that the code is bound to, with a verifier
  -- for its challenge; the tokens are for the code's client, scope, audience and principal.
  pub handle_token-Redeemed :
      (s : Server) (r : Request) (form : Values) (w w' : World env.S) (rep : Reply)
      → r.form ≡ some form
      → get form "grant_type" ≡ "authorization_code"
      → handle_token s r w ≡ (rep, w')
      → rep.status ≡ 200
      → (r.method ≡ "POST") × Redeemed s form w rep w'
  unfolding handle_token dispatch_grant grant_auth_code consume
  handle_token-Redeemed s r form w w' rep parsed kind h success =
      elim (Bool-cases (r.method == "POST")) [
        | inr other ↦
            absurd (not_ok {n = 405} refl (omega arith) (reply_of (rw other at h)) success)
        | inl post ↦ (
          eq_of_test r.method "POST" post,
          exchange-Redeemed s form w w' rep _ refl
              (rw (post, parsed, (eq_iff (get form "grant_type") "authorization_code").1 kind) at h)
              success,
        )
      ]

-- ===== src/Grant/Issue.antt =====
-- A token response: what was minted and what was stored.
use lib_agent_oauth.Prelude.{ℕ, ◌/◌, String, ◌≡◌, ◌≢◌, refl, sym, ap, subst, ◌∙◌, inl, inr, arith}
use lib_agent_oauth.Exec.{Result, ok}
use lib_agent_oauth.Env.{Env}
use lib_agent_oauth.Model.{World, PrincipalGrant}
use lib_agent_oauth.Http.{Reply, token_response}
use lib_agent_oauth.Http.Laws.{on-cases}
use lib_agent_oauth.Refresh
use lib_agent_oauth.Token.{mint_for}
use lib_agent_oauth.Server.{Server}
use lib_agent_oauth.Grant.{issue_tokens, project}

-- A handler's reply and state, taken apart.
pub reply_of : {W : Type 0} {a b : Reply} {w w' : W} → ◌≡◌ {A = Reply × W} (a, w) (b, w') → a ≡ b
reply_of {W} h = ap (λ (r : Reply × W). r.0) h

pub state_of : {W : Type 0} {a b : Reply} {w w' : W} → ◌≡◌ {A = Reply × W} (a, w) (b, w') → w ≡ w'
state_of {W} h = ap (λ (r : Reply × W). r.1) h

-- A reply with another status is not a success.
pub not_ok : {n : ℕ} {a b : Reply} → a.status ≡ n → n ≢ 200 → a ≡ b → b.status ≢ 200
not_ok s ne e h = ne (sym s ∙ ap (λ (r : Reply). r.status) e ∙ h)

module _ ⦃env : Env⦄ where
  -- What stands behind a token response: the access token is the issuer's signature on the claims
  -- for this client, scope, audience and projected principal, and the refresh token is stored with
  -- the original principal.
  pub record Issued (s : Server) (client_id scope resource : String) (p : PrincipalGrant)
      (w : World env.S) (rep : Reply) (w' : World env.S) : Type 0 where
    pub access : String
    pub refresh : String
    pub body :
        rep.body
        ≡ token_response (record {
          access_token = access;
          expires_in = s.issuer.ttl / 1000000000;
          refresh_token = refresh;
          scope = scope;
        })
    pub minted :
        mint_for s.issuer client_id scope resource (project s.binding_for_resource p resource) w
        ≡ (ok access, w)
    pub stored : Refresh.issue client_id scope resource p w ≡ (ok refresh, w')

  mint-same :
      (s : Server) (client_id scope resource : String) (p : PrincipalGrant) (w v : World env.S)
      {r : Result String}
      → mint_for s.issuer client_id scope resource p w ≡ (r, v)
      → w ≡ v
  unfolding mint_for
  mint-same s client_id scope resource p w v h = ap (λ (x : Result String × World env.S). x.1) h

  pub issue_tokens-Issued :
      (s : Server) (client_id scope resource : String) (p : PrincipalGrant) (w w' : World env.S)
      (rep : Reply)
      → issue_tokens s client_id scope resource p w ≡ (rep, w')
      → rep.status ≡ 200
      → Issued s client_id scope resource p w rep w'
  unfolding issue_tokens
  issue_tokens-Issued s client_id scope resource p w w' rep h success =
      elim (on-cases _ _
        (mint_for s.issuer client_id scope resource (project s.binding_for_resource p resource)) w
        w' rep h) [
          | inl (access, v, minted, rest) ↦
              let same =
                mint-same s client_id scope resource (project s.binding_for_resource p resource) w v
                  minted in
              elim (on-cases _ _ (Refresh.issue client_id scope resource p) v w' rep rest) [
                | inl (refresh, u, stored, last) ↦ record {
                  access = access;
                  refresh = refresh;
                  body = ap (λ (r : Reply). r.body) (sym (reply_of last));
                  minted =
                      subst
                        (λ x.
                          mint_for s.issuer client_id scope resource
                            (project s.binding_for_resource p resource) w
                          ≡ (ok access, x))
                        (sym same) minted;
                  stored =
                      subst (λ x. Refresh.issue client_id scope resource p x ≡ (ok refresh, w'))
                        (sym same)
                        (subst (λ x. Refresh.issue client_id scope resource p v ≡ (ok refresh, x))
                          (state_of last) stored);
                }
                | inr (e, u, _, last) ↦
                    absurd (not_ok {n = 500} refl (omega arith) (reply_of last) success)
              ]
          | inr (e, v, _, last) ↦
              absurd (not_ok {n = 500} refl (omega arith) (reply_of last) success)
        ]

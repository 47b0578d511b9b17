-- ===== src/Grant/Succeeds.antt =====
-- grant.go: an authorization code that nothing stands against, to the reply.
use lib_agent_oauth.Prelude.{
  ℕ, ◌/◌, ◌≤◌, String, ◌≡◌, refl, sym, ap, subst, ◌∙◌, true, List, some, arith, eq_iff,
}
use lib_agent_oauth.Map
use lib_agent_oauth.Map.{Map, lookup-insert_same}
use lib_agent_oauth.Exec.{ok}
use lib_agent_oauth.Env.{Env, Stored}
use lib_agent_oauth.Jwt.{Key, Claims}
use lib_agent_oauth.Model.{World, AuthGrant}
use lib_agent_oauth.Store.{IsLawful}
use lib_agent_oauth.Http.{Values, get, Request, Reply, token_response}
use lib_agent_oauth.Http.Laws.{on-ok}
use lib_agent_oauth.AuthCode.{consume, unexpired}
use lib_agent_oauth.Refresh
use lib_agent_oauth.Refresh.{refresh_store_key}
use lib_agent_oauth.Refresh.Codec.{RefreshGrant, refresh_codec}
use lib_agent_oauth.Refresh.Laws.{Tokens, issue-ok, issue-succeeds}
use lib_agent_oauth.JsonMap.Laws.{reads-stored}
use lib_agent_oauth.Pkce.{verify_pkce}
use lib_agent_oauth.Token.{mint_for}
use lib_agent_oauth.Token.Laws.{mint_for-succeeds}
use lib_agent_oauth.Server.{Server}
use lib_agent_oauth.Grant.{project, issue_tokens, exchange_code, grant_auth_code, handle_token}
use lib_agent_oauth.Grant.Code.{without_code}
use lib_agent_oauth.Grant.Issue.{issue_tokens-Issued}
use lib_agent_oauth.Grant.Replay.{handle_token-code}

module _ ⦃env : Env⦄ where
  -- The form redeems the grant.
  pub record IsRedeemable (form : Values) (w : World env.S) (g : AuthGrant) : Type 0 where
    pub stored : Map.lookup (get form "code") w.codes ≡ some g
    pub fresh : w.now ≤ g.expires_at
    pub client : g.client_id ≡ get form "client_id"
    pub redirect_uri : g.redirect_uri ≡ get form "redirect_uri"
    pub proof :
        verify_pkce g.code_challenge g.code_challenge_method (get form "code_verifier") ≡ true

  -- The libraries that the server calls do their work: it has a key that signs, randomness does not
  -- fail, and the secret store takes what is written.
  pub record IsWorking (s : Server) : Type 0 where
    pub key : Key
    pub has_key : s.issuer.sign_key ≡ some key
    pub signs : (c : Claims) → (t : String) × (env.jwt.sign s.issuer.method key c ≡ some t)
    pub draws : (n k : ℕ) → (b : List ℕ) × (env.entropy n k ≡ some b)
    pub writes : (t : env.S) (k : String) (v : Stored) → (env.store.set t k v).0 ≡ ok tt

  -- A reply with tokens for the grant, of which the refresh token is stored.
  pub record Succeeds (s : Server) (g : AuthGrant) (rep : Reply) (w' : World env.S) : Type 0 where
    pub status : rep.status ≡ 200
    pub access : String
    pub refresh : String
    pub body :
        rep.body
        ≡ token_response (record {
          access_token = access;
          expires_in = s.issuer.ttl / 1000000000;
          refresh_token = refresh;
          scope = g.scope;
        })
    pub tokens : Map RefreshGrant
    pub holds : Tokens w' tokens
    pub stored :
        Map.lookup refresh tokens
        ≡ some (record {
          client_id = g.client_id;
          scope = g.scope;
          resource = g.resource;
          principal = g.principal;
        })

  unexpired-fresh : (now : ℕ) (g : AuthGrant) → now ≤ g.expires_at → unexpired now (some g) ≡ some g
  unfolding unexpired
  unexpired-fresh now g h = ground arith

  exchange-redeems :
      (s : Server) (form : Values) (w v : World env.S) (g : AuthGrant)
      → IsRedeemable form w g
      → exchange_code s form (some g) v
        ≡ issue_tokens s g.client_id g.scope g.resource g.principal v
  unfolding exchange_code
  exchange-redeems s form w v g can = rw (
    (eq_iff g.client_id (get form "client_id")).1 can.client,
    (eq_iff g.redirect_uri (get form "redirect_uri")).1 can.redirect_uri,
    can.proof,
  )

  grant_auth_code-redeems :
      (s : Server) (form : Values) (w : World env.S) (g : AuthGrant)
      → IsRedeemable form w g
      → grant_auth_code s form w
        ≡ issue_tokens s g.client_id g.scope g.resource g.principal
            (without_code (get form "code") w)
  unfolding grant_auth_code consume
  grant_auth_code-redeems s form w g can =
      rw (can.stored) (rw (unexpired-fresh w.now g can.fresh) (exchange-redeems s form w _ g can))

  -- Nothing fails on the way to the tokens.
  issue_tokens-status :
      (s : Server) (g : AuthGrant) (w : World env.S) {m : Map RefreshGrant}
      → IsWorking s
      → Tokens w m
      → (issue_tokens s g.client_id g.scope g.resource g.principal w).0.status ≡ 200
  unfolding issue_tokens
  issue_tokens-status s g w working held =
      let p = project s.binding_for_resource g.principal g.resource in
      let (t, minted) =
        mint_for-succeeds s.issuer g.client_id g.scope g.resource p working.key w working.has_key
          working.signs in
      let (token, w', stored) =
        issue-succeeds g.client_id g.scope g.resource g.principal w held working.draws
          working.writes in
      ap (λ (x : Reply × World env.S). x.0.status)
        (on-ok (mint_for s.issuer g.client_id g.scope g.resource p) _ _ w w t minted
          ∙ on-ok (Refresh.issue g.client_id g.scope g.resource g.principal) _ _ w w' token stored)

  module _ (lawful : IsLawful env.store) where
    issue_tokens-Succeeds :
        (s : Server) (g : AuthGrant) (w : World env.S) {m : Map RefreshGrant}
        → IsWorking s
        → Tokens w m
        → let (rep, w') = issue_tokens s g.client_id g.scope g.resource g.principal w in
          Succeeds s g rep w'
    issue_tokens-Succeeds s g w working held =
        let status = issue_tokens-status s g w working held in
        let i =
          issue_tokens-Issued s g.client_id g.scope g.resource g.principal w
            (issue_tokens s g.client_id g.scope g.resource g.principal w).1
            (issue_tokens s g.client_id g.scope g.resource g.principal w).0 refl status in
        let (m', _, holds, _) =
          issue-ok lawful g.client_id g.scope g.resource g.principal w _ i.stored in
        record {
          status = status;
          access = i.access;
          refresh = i.refresh;
          body = i.body;
          tokens = Map.insert i.refresh _ m';
          holds = holds;
          stored = lookup-insert_same i.refresh _ m';
        }

    -- A POST that redeems a live stored code is answered with 200, an access token and a refresh
    -- token that is stored for the client, the scope, the audience and the principal of the code,
    -- if the stored refresh tokens can be read, the store keeps and takes what is written, the
    -- server has a key that signs, and randomness does not fail.
    pub handle_token-Succeeds :
        (s : Server) (r : Request) (form : Values) (w : World env.S) (g : AuthGrant)
        (m : Map RefreshGrant)
        → r.method ≡ "POST"
        → r.form ≡ some form
        → get form "grant_type" ≡ "authorization_code"
        → IsRedeemable form w g
        → IsWorking s
        → Tokens w m
        → let (rep, w') = handle_token s r w in Succeeds s g rep w'
    handle_token-Succeeds s r form w g m post parsed kind can working held =
        subst (λ (x : Reply × World env.S). Succeeds s g x.0 x.1)
          (sym (
            handle_token-code s r form w post parsed kind ∙ grant_auth_code-redeems s form w g can))
          (issue_tokens-Succeeds s g (without_code (get form "code") w) working (
            reads-stored refresh_codec refresh_store_key w (without_code (get form "code") w) refl
            ∙ held))

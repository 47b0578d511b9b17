-- ===== src/Grant/Rotation.antt =====
-- The exchange of a refresh token.
use lib_agent_oauth.Prelude.{
  String, ◌≡◌, ◌≢◌, refl, subst, ◌⊎◌, inl, inr, false, not, ◌&&◌, Bool-cases, Option, none, some,
  arith, ◌==◌, eq_iff, eq_of_test, eq_refl, ne_test,
}
use lib_agent_oauth.Map
use lib_agent_oauth.Map.{Map, lookup-insert}
use lib_agent_oauth.Exec.{ok}
use lib_agent_oauth.Env.{Env}
use lib_agent_oauth.Model.{World}
use lib_agent_oauth.Store.{IsLawful}
use lib_agent_oauth.Http.{Values, get, Request, Reply}
use lib_agent_oauth.Http.Laws.{on-cases}
use lib_agent_oauth.JsonMap.Laws.{same_map, reads}
use lib_agent_oauth.Refresh
use lib_agent_oauth.Refresh.Codec.{RefreshGrant}
use lib_agent_oauth.Refresh.Laws.{Tokens, exchange-rotates, issue-ok}
use lib_agent_oauth.Server.{Server}
use lib_agent_oauth.Grant.{exchange_refresh, grant_refresh, dispatch_grant, handle_token}
use lib_agent_oauth.Grant.Issue.{Issued, issue_tokens-Issued, reply_of, not_ok}

-- The test that lets a client through.
client_of : (c d : String) → (not (c == "") && not (c == d)) ≡ false → (c ≡ "") ⊎ (c ≡ d)
client_of c d h = elim (Bool-cases (c == "")) [
  | inl e ↦ inl (eq_of_test c "" e)
  | inr e ↦ inr (ground (arith, eq_iff c d))
]

module _ ⦃env : Env⦄ where
  -- What a successful refresh does: the presented token stood for `grant`, the form's client is
  -- the grant's or is left out, tokens are issued for the same client, scope, audience and
  -- principal, and the new token stands for the same grant; every other token but the presented
  -- one is kept, and that one is gone.
  pub record Rotated (s : Server) (form : Values) (w : World env.S) (rep : Reply) (w' : World env.S)
      : Type 0 where
    pub grant : RefreshGrant
    pub client : (get form "client_id" ≡ "") ⊎ (get form "client_id" ≡ grant.client_id)
    pub between : World env.S
    pub issued : Issued s grant.client_id grant.scope grant.resource grant.principal between rep w'
    pub before : Map RefreshGrant
    pub after : Map RefreshGrant
    pub held : Tokens w before
    pub holds : Tokens w' after
    pub presented : Map.lookup (get form "refresh_token") before ≡ some grant
    pub renewed : Map.lookup issued.refresh after ≡ some grant
    pub spent :
        issued.refresh ≢ get form "refresh_token"
        → Map.lookup (get form "refresh_token") after ≡ none
    pub others :
        (other : String)
        → get form "refresh_token" ≢ other
        → issued.refresh ≢ other
        → Map.lookup other after ≡ Map.lookup other before

  module _ (lawful : IsLawful env.store) where
    accepted-Rotated :
        (s : Server) (form : Values) (w v w' : World env.S) (rep : Reply) (g : RefreshGrant)
        → Refresh.exchange (get form "refresh_token") w ≡ (ok (some g), v)
        → (get form "client_id" ≡ "") ⊎ (get form "client_id" ≡ g.client_id)
        → Issued s g.client_id g.scope g.resource g.principal v rep w'
        → Rotated s form w rep w'
    unfolding reads
    accepted-Rotated s form w v w' rep g e client i =
        let (m, m', held, left, found, gone, same, _) =
          exchange-rotates lawful (get form "refresh_token") w v e in
        let (n, held', holds, _) =
          issue-ok lawful g.client_id g.scope g.resource g.principal v w' i.stored in
        let both : m' ≡ n = same_map left held' in
        record {
          grant = g;
          client = client;
          between = v;
          issued = i;
          before = m;
          after = Map.insert i.refresh g n;
          held = held;
          holds = holds;
          presented = found;
          renewed = rw (lookup-insert i.refresh i.refresh g n) (rw eq_refl);
          spent = λ ne.
              rw
                (
                  lookup-insert i.refresh (get form "refresh_token") g n,
                  ne_test i.refresh (get form "refresh_token") ne,
                )
                (subst (λ x. Map.lookup (get form "refresh_token") x ≡ none) both gone);
          others = λ other ne ne'.
              rw (lookup-insert i.refresh other g n, ne_test i.refresh other ne')
                (subst (λ x. Map.lookup other x ≡ Map.lookup other m) both (same other ne));
        }

    exchange-Rotated :
        (s : Server) (form : Values) (w v w' : World env.S) (rep : Reply) (o : Option RefreshGrant)
        → Refresh.exchange (get form "refresh_token") w ≡ (ok o, v)
        → exchange_refresh s form o v ≡ (rep, w')
        → rep.status ≡ 200
        → Rotated s form w rep w'
    unfolding exchange_refresh
    exchange-Rotated s form w v w' rep none e h success =
        absurd (not_ok {n = 400} refl (omega arith) (reply_of h) success)
    exchange-Rotated s form w v w' rep (some g) e h success =
        elim (Bool-cases
          (not (get form "client_id" == "") && not (get form "client_id" == g.client_id))) [
            | inl bad ↦
                absurd (not_ok {n = 400} refl (omega arith) (reply_of (rw bad at h)) success)
            | inr fine ↦
                accepted-Rotated s form w v w' rep g e
                  (client_of (get form "client_id") g.client_id fine)
                  (issue_tokens-Issued s g.client_id g.scope g.resource g.principal v w' rep
                    (rw fine at h) success)
          ]

    -- A refresh_token request that is answered with tokens was a POST, and rotated the token: see
    -- `Rotated`. The store must keep what is written.
    pub handle_token-Rotated :
        (s : Server) (r : Request) (form : Values) (w w' : World env.S) (rep : Reply)
        → r.form ≡ some form
        → get form "grant_type" ≡ "refresh_token"
        → handle_token s r w ≡ (rep, w')
        → rep.status ≡ 200
        → (r.method ≡ "POST") × Rotated s form w rep w'
    unfolding handle_token dispatch_grant grant_refresh
    handle_token-Rotated s r form w w' rep parsed kind h success =
        elim (Bool-cases (r.method == "POST")) [
          | inr other ↦
              absurd (not_ok {n = 405} refl (omega arith) (reply_of (rw other at h)) success)
          | inl post ↦ (
            eq_of_test r.method "POST" post,
            elim (on-cases (exchange_refresh s form) _ (Refresh.exchange (get form "refresh_token"))
                w w' rep (rw (post, parsed, kind) at h)) [
                  | inl (o, v, e, rest) ↦ exchange-Rotated s form w v w' rep o e rest success
                  | inr (e, v, _, rest) ↦
                      absurd (not_ok {n = 500} refl (omega arith) (reply_of rest) success)
                ],
          )
        ]

-- ===== src/Authorize/Redirects.antt =====
-- Where the browser is sent: nowhere, or to the redirect URI of the request.
use lib_agent_oauth.Prelude.{
  String, ◌≡◌, ◌≢◌, refl, sym, ap, ◌∙◌, false, Bool-cases, inl, inr, ◌⊎◌, ne_of_test, Option, none,
  some, ◌==◌, ne_test,
}
use lib_agent_oauth.Map
use lib_agent_oauth.Map.{Map, lookup-insert, lookup-insert_same}
use lib_agent_oauth.Env.{Env}
use lib_agent_oauth.Http.{Url, Body, redirect}
use lib_agent_oauth.AuthParams.{AuthParams}
use lib_agent_oauth.Authorize.{with_state, redirect_to, redirect_with}

-- A body that sends the browser nowhere.
unfoldable pub NoRedirect : Body → Type 0
NoRedirect b = (u : Url) → b ≢ redirect u

module _ ⦃env : Env⦄ where
  -- The URL is the redirect URI of the request but for its query: that has the state if there is one,
  -- and one parameter more, a code or an error, and otherwise it is the query of the redirect URI.
  pub record IsTarget (p : AuthParams) (u : Url) : Type 0 where
    pub base : Url
    pub parsed : env.parse_url p.redirect_uri ≡ some base
    pub scheme : u.scheme ≡ base.scheme
    pub host : u.host ≡ base.host
    pub hostname : u.hostname ≡ base.hostname
    pub rest : u.rest ≡ base.rest
    pub name : String
    pub value : String
    pub code_or_error : (name ≡ "code") ⊎ (name ≡ "error")
    pub added : Map.lookup name u.query ≡ some value
    pub state : p.state ≢ "" → Map.lookup "state" u.query ≡ some p.state
    pub stateless : p.state ≡ "" → Map.lookup "state" u.query ≡ Map.lookup "state" base.query
    pub others :
        (key : String)
        → key ≢ name
        → key ≢ "state"
        → Map.lookup key u.query ≡ Map.lookup key base.query

  unfoldable pub GoesTo : AuthParams → Body → Type 0
  GoesTo p b = (u : Url) → b ≡ redirect u → IsTarget p u

  redirect_eq : {a b : Url} → redirect a ≡ redirect b → a ≡ b
  redirect_eq h = cc

  with_state_lem :
      (state : String) (q : Map String)
      → state ≢ ""
      → Map.lookup "state" (with_state state q) ≡ some state
  with_state_lem state q ne = rw (ne_test state "" ne) (lookup-insert_same "state" state q)

  -- The query of a redirect, key by key.
  added_lem :
      (state : String) (k v : String) (q : Map String)
      → ("state" == k) ≡ false
      → Map.lookup k (with_state state (Map.insert k v q)) ≡ some v
  added_lem state k v q ne = elim (Bool-cases (state == "")) [
    | inl e ↦ rw e (lookup-insert_same k v q)
    | inr e ↦
        rw e (lookup-insert "state" k state (Map.insert k v q) ∙ rw ne (lookup-insert_same k v q))
  ]

  kept_lem :
      (k j v : String) (q : Map String)
      → (k == j) ≡ false
      → Map.lookup j (Map.insert k v q) ≡ Map.lookup j q
  kept_lem k j v q ne = lookup-insert k j v q ∙ rw ne refl

  others_lem :
      (state k v : String) (q : Map String) (key : String)
      → key ≢ k
      → key ≢ "state"
      → Map.lookup key (with_state state (Map.insert k v q)) ≡ Map.lookup key q
  others_lem state k v q key ne ne' =
      let apart = ne_test k key (λ e. ne (sym e)) in
      elim (Bool-cases (state == "")) [
        | inl e ↦ rw e (kept_lem k key v q apart)
        | inr e ↦ rw e (
            kept_lem "state" key state (Map.insert k v q) (ne_test "state" key (λ e. ne' (sym e)))
            ∙ kept_lem k key v q apart)
      ]

  no_state : (k : String) → (k ≡ "code") ⊎ (k ≡ "error") → k ≢ "state"
  no_state k (inl e) h = ne_of_test "code" "state" refl (sym e ∙ h)
  no_state k (inr e) h = ne_of_test "error" "state" refl (sym e ∙ h)

  redirect_to-GoesTo :
      (o : Option Url) (p : AuthParams) (k v : String)
      → (k ≡ "code") ⊎ (k ≡ "error")
      → env.parse_url p.redirect_uri ≡ o
      → GoesTo p (redirect_to o p k v).body
  unfolding GoesTo
  redirect_to-GoesTo none p k v kind e u h = cc
  redirect_to-GoesTo (some base) p k v kind e u h =
      let same = redirect_eq h in
      let query = ap (λ (x : Url). x.query) (sym same) in
      let apart = no_state k kind in
      record {
        base = base;
        parsed = e;
        scheme = ap (λ (x : Url). x.scheme) (sym same);
        host = ap (λ (x : Url). x.host) (sym same);
        hostname = ap (λ (x : Url). x.hostname) (sym same);
        rest = ap (λ (x : Url). x.rest) (sym same);
        name = k;
        value = v;
        code_or_error = kind;
        added =
            ap (Map.lookup k) query
            ∙ added_lem p.state k v base.query (ne_test "state" k (λ e. apart (sym e)));
        state = λ ne.
            ap (Map.lookup "state") query ∙ with_state_lem p.state (Map.insert k v base.query) ne;
        stateless = λ blank.
            ap (Map.lookup "state") query
            ∙ ap (λ s. Map.lookup "state" (with_state s (Map.insert k v base.query))) blank
            ∙ kept_lem k "state" v base.query (ne_test k "state" apart);
        others =
            λ key ne ne'. ap (Map.lookup key) query ∙ others_lem p.state k v base.query key ne ne';
      }

  pub redirect_with-GoesTo :
      (p : AuthParams) (k v : String)
      → (k ≡ "code") ⊎ (k ≡ "error")
      → GoesTo p (redirect_with p k v).body
  unfolding redirect_with
  redirect_with-GoesTo p k v kind =
      redirect_to-GoesTo (env.parse_url p.redirect_uri) p k v kind refl

  -- A body that sends the browser nowhere goes nowhere else.
  pub NoRedirect-GoesTo : (p : AuthParams) (b : Body) → NoRedirect b → GoesTo p b
  unfolding GoesTo NoRedirect
  NoRedirect-GoesTo p b nowhere u h = absurd (nowhere u h)

  -- The redirect carries the parameter.
  pub redirect_with-carries :
      (p : AuthParams) (k v : String) (u : Url)
      → ("state" == k) ≡ false
      → (redirect_with p k v).body ≡ redirect u
      → Map.lookup k u.query ≡ some v
  unfolding redirect_with
  redirect_with-carries p k v u ne h = carried (env.parse_url p.redirect_uri) h
    where
      carried :
          (o : Option Url) → (redirect_to o p k v).body ≡ redirect u → Map.lookup k u.query ≡ some v
      carried none h = cc
      carried (some base) h =
          ap (λ (x : Url). Map.lookup k x.query) (sym (redirect_eq h))
          ∙ added_lem p.state k v base.query ne

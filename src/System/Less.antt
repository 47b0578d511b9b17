-- ===== src/System/Less.antt =====
-- The steps that take codes out at most.
use lib_agent_oauth.Prelude.{
  ℕ, ◌≤◌, String, ◌≡◌, refl, sym, ap, subst, ◌∙◌, inl, inr, Bool-cases, not, Option, none, some,
  ◌==◌, arith,
}
use lib_agent_oauth.Map
use lib_agent_oauth.Map.{Map, lookup-insert, lookup-delete}
use lib_agent_oauth.Env.{Env}
use lib_agent_oauth.Model.{World, AuthGrant}
use lib_agent_oauth.Http.{Values, get, Request}
use lib_agent_oauth.Frame.{codes_and_now, codes_and_now-IsFrame}
use lib_agent_oauth.AuthCode.{consume}
use lib_agent_oauth.Server.{Server}
use lib_agent_oauth.Grant.{handle_token, dispatch_grant, grant_auth_code, grant_refresh}
use lib_agent_oauth.Grant.Keeps.{exchange_code-Keeps, grant_refresh-Keeps}
use lib_agent_oauth.Grant.Code.{without_code}

module _ ⦃env : Env⦄ where
  -- The codes of `v` are among those of `w`, and it is not earlier.
  pub record IsLess (w v : World env.S) : Type 0 where
    pub stored :
        (code : String) (g : AuthGrant)
        → Map.lookup code v.codes ≡ some g
        → Map.lookup code w.codes ≡ some g
    pub later : w.now ≤ v.now

  pub same-IsLess : (w v : World env.S) → codes_and_now v ≡ codes_and_now w → IsLess w v
  same-IsLess w v e = record {
    stored = λ code g h. sym (ap (λ (x : Map AuthGrant × ℕ). Map.lookup code x.0) e) ∙ h;
    later = subst (λ n. n ≤ v.now) (ap (λ (x : Map AuthGrant × ℕ). x.1) e) (omega arith);
  }

  -- Taking a code out leaves fewer.
  without-IsLess : (code : String) (w : World env.S) → IsLess w (without_code code w)
  without-IsLess code w = record {
    stored = λ other g h. ground (arith, lookup-delete code other w.codes, h);
    later = omega arith;
  }

  IsLess-then : (u v w : World env.S) → IsLess u v → codes_and_now w ≡ codes_and_now v → IsLess u w
  IsLess-then u v w a e =
      let b = same-IsLess v w e in
      let first = a.later in
      let second = b.later in
      record { stored = λ code g h. a.stored code g (b.stored code g h); later = omega arith }

  dispatch-IsLess :
      (s : Server) (o : Option Values) (w : World env.S) → IsLess w (dispatch_grant s o w).1
  unfolding dispatch_grant grant_auth_code consume
  dispatch-IsLess s none w = same-IsLess w w refl
  dispatch-IsLess s (some form) w =
      elim (Bool-cases (get form "grant_type" == "authorization_code")) [
        | inl code ↦ rw code (
            IsLess-then w (without_code (get form "code") w) _ (without-IsLess (get form "code") w)
              ((exchange_code-Keeps codes_and_now codes_and_now-IsFrame s form _).at
                (without_code (get form "code") w)))
        | inr other ↦ elim (Bool-cases (get form "grant_type" == "refresh_token")) [
          | inl refresh ↦
              rw (other, refresh)
                (same-IsLess w (grant_refresh s form w).1
                  ((grant_refresh-Keeps codes_and_now codes_and_now-IsFrame s form).at w))
          | inr neither ↦ rw (other, neither) (same-IsLess w w refl)
        ]
      ]

  pub handle_token-IsLess :
      (s : Server) (r : Request) (w : World env.S) → IsLess w (handle_token s r w).1
  unfolding handle_token
  handle_token-IsLess s r w = elim (Bool-cases (not (r.method == "POST"))) [
    | inl e ↦ rw e (same-IsLess w w refl)
    | inr e ↦ rw e (dispatch-IsLess s r.form w)
  ]

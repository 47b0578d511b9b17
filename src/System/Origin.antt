-- ===== src/System/Origin.antt =====
-- Where the codes that are in memory come from.
use lib_agent_oauth.Prelude.{
  ℕ, ◌+◌, ◌≤◌, String, ◌≡◌, ◌≢◌, refl, sym, ap, subst, ◌∙◌, inl, inr, Bool-cases, Option, some,
  none, [], ◌==◌, arith, eq_of_test,
}
use lib_agent_oauth.Map
use lib_agent_oauth.Map.{Map, lookup-insert, lookup-delete}
use lib_agent_oauth.Exec.Keeps.{Keeps}
use lib_agent_oauth.Env.{Env}
use lib_agent_oauth.Model.{World, M, AuthGrant}
use lib_agent_oauth.Http.{Values, Request, Reply}
use lib_agent_oauth.Frame.{
  codes_and_now, codes_and_now-IsFrame, rotate-Keeps, shared_code-Keeps,
  merge_principal_binding-Keeps,
}
use lib_agent_oauth.AuthCode.{default_auth_code_ttl}
use lib_agent_oauth.Server.{Server}
use lib_agent_oauth.AuthParams.{parse_auth_params}
use lib_agent_oauth.Authorize.{code_grant}
use lib_agent_oauth.Approve.{handle_authorize}
use lib_agent_oauth.Approve.Outcome.{Approval}
use lib_agent_oauth.Approve.Flow.{handle_authorize-Approval}
use lib_agent_oauth.System.{
  Step, Reaches, here, then_step, authorizes, redeems, registers, shows_code, rotates_code, adds,
  binds, merges, rotates, removes, waits, restarts,
}
use lib_agent_oauth.System.Quiet.{
  add_principal-Keeps, set_principal_binding-Keeps, rotate_principal-Keeps, remove_principal-Keeps,
  handle_register-keeps,
}
use lib_agent_oauth.System.Less.{IsLess, same-IsLess, handle_token-IsLess}

module _ ⦃env : Env⦄ where
  -- The code `code` with the grant `g` was issued by an authorization request that was approved, in
  -- a state that the server has been in, and not later than `now`.
  pub record HasOrigin (s : Server) (start : World env.S) (now : ℕ) (code : String) (g : AuthGrant)
      : Type 0 where
    pub at : World env.S
    pub reached : Reaches s start at
    pub request : Request
    pub form : Values
    pub posted : (request.method ≡ "POST") × (request.form ≡ some form)
    pub reply : Reply
    pub next : World env.S
    pub answered : handle_authorize s request at ≡ (reply, next)
    pub approval : Approval s request form at reply next
    pub is : approval.issued.code ≡ code
    pub grant : g ≡ record (code_grant s approval.client (parse_auth_params form) approval.grant) {
      expires_at = at.now + default_auth_code_ttl;
    }
    pub since : at.now ≤ now

  -- Every code that is stored has an origin.
  pub record HasOrigins (s : Server) (start w : World env.S) : Type 0 where
    pub origin :
        (code : String) (g : AuthGrant)
        → Map.lookup code w.codes ≡ some g
        → HasOrigin s start w.now code g

  -- Every code that is stored and was not stored at the start has an origin.
  pub record HasNewOrigins (s : Server) (start w : World env.S) : Type 0 where
    pub origin :
        (code : String) (g : AuthGrant)
        → Map.lookup code start.codes ≡ none
        → Map.lookup code w.codes ≡ some g
        → HasOrigin s start w.now code g

  less :
      (s : Server) (start w v : World env.S)
      → IsLess w v
      → HasNewOrigins s start w
      → HasNewOrigins s start v
  less s start w v l h = record {
    origin = λ code g fresh i.
        let o = h.origin code g fresh (l.stored code g i) in
        let then = l.later in
        let before = o.since in
        record {
          at = o.at;
          reached = o.reached;
          request = o.request;
          form = o.form;
          posted = o.posted;
          reply = o.reply;
          next = o.next;
          answered = o.answered;
          approval = o.approval;
          is = o.is;
          grant = o.grant;
          since = omega arith;
        };
  }

  -- A code that was just issued has an origin, and the others keep theirs.
  issued-HasNewOrigins :
      (s : Server) (start w : World env.S) (r : Request) (form : Values)
      → Reaches s start w
      → HasNewOrigins s start w
      → r.method ≡ "POST"
      → r.form ≡ some form
      → Approval s r form w (handle_authorize s r w).0 (handle_authorize s r w).1
      → HasNewOrigins s start (handle_authorize s r w).1
  issued-HasNewOrigins s start w r form reached h post parsed a = record {
    origin = λ code g fresh i.
        let found =
          sym (lookup-insert a.issued.code code _ w.codes)
          ∙ ap (Map.lookup code) (sym a.issued.stored)
          ∙ i in
        subst (λ n. HasOrigin s start n code g) (sym a.issued.now)
          (elim (Bool-cases (a.issued.code == code)) [
            | inl this ↦ record {
              at = w;
              reached = reached;
              request = r;
              form = form;
              posted = (post, parsed);
              reply = (handle_authorize s r w).0;
              next = (handle_authorize s r w).1;
              answered = refl;
              approval = a;
              is = eq_of_test a.issued.code code this;
              grant = some_eq (sym (rw this at found));
              since = omega arith;
            }
            | inr other ↦ h.origin code g fresh (rw other at found)
          ]);
  }
    where
      some_eq : {x y : AuthGrant} → some x ≡ some y → x ≡ y
      some_eq e = cc

  authorize-HasNewOrigins :
      (s : Server) (start w : World env.S) (r : Request)
      → Reaches s start w
      → HasNewOrigins s start w
      → HasNewOrigins s start (handle_authorize s r w).1
  authorize-HasNewOrigins s start w r reached h =
      elim (handle_authorize-Approval s r w (handle_authorize s r w).1 (handle_authorize s r w).0
        refl) [
          | inl quiet ↦ less s start w _ (same-IsLess w _ quiet.same) h
          | inr (form, post, parsed, a) ↦
              issued-HasNewOrigins s start w r form reached h post parsed a
        ]

  -- An operation that keeps the codes and the time keeps the origins.
  quiet-HasNewOrigins :
      {A : Type 0} (s : Server) (start w : World env.S) (m : M A)
      → Keeps codes_and_now m
      → HasNewOrigins s start w
      → HasNewOrigins s start (m w).1
  quiet-HasNewOrigins s start w m k h = less s start w (m w).1 (same-IsLess w (m w).1 (k.at w)) h

  no_code : (code : String) (g : AuthGrant) → Map.lookup {V = AuthGrant} code [] ≢ some g
  unfolding Map.lookup
  no_code code g i = cc

  Step-HasNewOrigins :
      (s : Server) (start w v : World env.S)
      → Reaches s start w
      → Step s w v
      → HasNewOrigins s start w
      → HasNewOrigins s start v
  Step-HasNewOrigins s start w _ reached (authorizes r) h =
      authorize-HasNewOrigins s start w r reached h
  Step-HasNewOrigins s start w _ reached (redeems r) h =
      less s start w _ (handle_token-IsLess s r w) h
  Step-HasNewOrigins s start w _ reached (registers method body) h =
      less s start w _
        (same-IsLess w _
          (handle_register-keeps codes_and_now codes_and_now-IsFrame s method body w))
        h
  Step-HasNewOrigins s start w _ reached shows_code h =
      quiet-HasNewOrigins s start w _ (shared_code-Keeps codes_and_now codes_and_now-IsFrame) h
  Step-HasNewOrigins s start w _ reached rotates_code h =
      quiet-HasNewOrigins s start w _ (rotate-Keeps codes_and_now codes_and_now-IsFrame) h
  Step-HasNewOrigins s start w _ reached (adds name binding) h =
      quiet-HasNewOrigins s start w _
        (add_principal-Keeps codes_and_now codes_and_now-IsFrame name binding) h
  Step-HasNewOrigins s start w _ reached (binds name binding) h =
      quiet-HasNewOrigins s start w _
        (set_principal_binding-Keeps codes_and_now codes_and_now-IsFrame name binding) h
  Step-HasNewOrigins s start w _ reached (merges name patch) h =
      quiet-HasNewOrigins s start w _
        (merge_principal_binding-Keeps codes_and_now codes_and_now-IsFrame name patch) h
  Step-HasNewOrigins s start w _ reached (rotates name) h =
      quiet-HasNewOrigins s start w _
        (rotate_principal-Keeps codes_and_now codes_and_now-IsFrame name) h
  Step-HasNewOrigins s start w _ reached (removes name) h =
      quiet-HasNewOrigins s start w _
        (remove_principal-Keeps codes_and_now codes_and_now-IsFrame name) h
  Step-HasNewOrigins s start w _ reached (waits t) h =
      less s start w _ (record { stored = λ code g i. i; later = omega arith }) h
  Step-HasNewOrigins s start w _ reached restarts h = record {
    origin = λ code g fresh i. absurd (no_code code g i);
  }

  pub reachable-HasNewOrigins :
      (s : Server) (start w : World env.S) → Reaches s start w → HasNewOrigins s start w
  reachable-HasNewOrigins s start _ here = record {
    origin = λ code g fresh i. absurd (both fresh i);
  }
    where
      both : {o : Option AuthGrant} {g : AuthGrant} → o ≡ none → o ≢ some g
      both e h = cc
  reachable-HasNewOrigins s start _ (then_step {u} {v} r step) =
      Step-HasNewOrigins s start u v r step (reachable-HasNewOrigins s start u r)

  no_code_stored :
      (code : String) (codes : Map AuthGrant) → codes ≡ [] → Map.lookup code codes ≡ none
  unfolding Map.lookup
  no_code_stored code codes e = rw e refl

  -- In every state that a server comes to from one without codes, each stored code was issued by an
  -- authorization request that was approved, with the grant of that request and for a minute from
  -- then on.
  pub reachable-HasOrigins :
      (s : Server) (start w : World env.S)
      → start.codes ≡ []
      → Reaches s start w
      → HasOrigins s start w
  reachable-HasOrigins s start w none_yet r = record {
    origin = λ code g i.
        (reachable-HasNewOrigins s start w r).origin code g
          (no_code_stored code start.codes none_yet) i;
  }

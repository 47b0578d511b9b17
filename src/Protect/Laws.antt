-- ===== src/Protect/Laws.antt =====
-- Laws of protect.go and httputil.go: the gate before the protected handler.
use Prim.Native.String as Chars
use Prim.Native.String.append
use Prim.Native.String.{◌++◌}
use lib_agent_oauth.Prelude.{
  ℕ, zero, suc, ◌+◌, ◌<◌, String, ◌≡◌, ◌≢◌, ◌↔◌, refl, sym, ap, subst, ◌∙◌, Bool, true, false, ◌&&◌,
  inl, inr, Bool-cases, ◌==◌, ltb, ne_of_test, ne_test, arith,
}
use lib_agent_oauth.Text
use lib_agent_oauth.Text.{trim_space, take, drop, count}
use lib_agent_oauth.Exec.{Result, ok, err}
use lib_agent_oauth.Http.{Request, Reply}
use lib_agent_oauth.Token.{Verified}
use lib_agent_oauth.Protect.{
  equal_fold, bearer_prefix, bearer_token, Gate, served, challenged, admitted, protect_handler,
}

served-ok :
    (prm_url : String) (r : Result Verified) (v : Verified)
    → admitted prm_url r ≡ served v
    → r ≡ ok v
served-ok prm_url (ok x) v h = ap ok (served_eq h)
  where
    served_eq : {a b : Verified} → served a ≡ served b → a ≡ b
    served_eq h = cc
served-ok prm_url (err e) v h = cc

-- A text is what is taken of it and what is dropped.
take-drop : (n : ℕ) (s : String) → s ≡ take n s ++ drop n s
unfolding take drop
take-drop zero s = sym (append.nil s)
take-drop (suc n) Chars.[] = sym (append.nil "")
take-drop (suc n) (Chars.◌∷◌ c s) =
    ap (Chars.◌∷◌ c) (take-drop n s) ∙ sym (append.cons c (take n s) (drop n s))

take_append : (p t : String) → take (count p) (p ++ t) ≡ p
unfolding take
take_append Chars.[] t = refl
take_append (Chars.◌∷◌ c p) t =
    ap (take (suc (count p))) (append.cons c p t) ∙ ap (Chars.◌∷◌ c) (take_append p t)

drop_append : (p t : String) → drop (count p) (p ++ t) ≡ t
unfolding drop
drop_append Chars.[] t = append.nil t
drop_append (Chars.◌∷◌ c p) t = ap (drop (suc (count p))) (append.cons c p t) ∙ drop_append p t

count_append : (p t : String) → count (p ++ t) ≡ count p + count t
count_append Chars.[] t = ap count (append.nil t) ∙ omega arith
count_append (Chars.◌∷◌ c p) t =
    let rest = count_append p t in ap count (append.cons c p t) ∙ omega arith

-- Texts that differ only in case are of the same length.
equal_fold-count : (s t : String) → equal_fold s t ≡ true → count s ≡ count t
unfolding equal_fold
equal_fold-count Chars.[] Chars.[] h = refl
equal_fold-count Chars.[] (Chars.◌∷◌ d t) h = cc
equal_fold-count (Chars.◌∷◌ c s) Chars.[] h = cc
equal_fold-count (Chars.◌∷◌ c s) (Chars.◌∷◌ d t) h = ap suc (equal_fold-count s t (ground arith))

-- The header is the scheme `Bearer`, in any case, a blank, and what follows.
pub record HasBearer (r : Request) (token : String) : Type 0 where
  pub scheme : String
  pub rest : String
  pub header : r.authorization ≡ scheme ++ rest
  pub is_bearer : equal_fold scheme "Bearer " ≡ true
  pub trimmed : trim_space rest ≡ token
  pub some_token : token ≢ ""

bearer_token-HasBearer : (r : Request) → bearer_token r ≢ "" → HasBearer r (bearer_token r)
unfolding bearer_token
bearer_token-HasBearer r ne =
    elim (Bool-cases
      (ltb 7 (count r.authorization) && equal_fold (take 7 r.authorization) bearer_prefix)) [
        | inl bearer ↦ record {
          scheme = take 7 r.authorization;
          rest = drop 7 r.authorization;
          header = take-drop 7 r.authorization;
          is_bearer = both (ltb 7 (count r.authorization)) _ bearer;
          trimmed = sym (rw bearer refl);
          some_token = ne;
        }
        | inr other ↦ absurd (ne (rw other refl))
      ]
  where
    both : (a b : Bool) → (a && b) ≡ true → b ≡ true
    both true b h = h
    both false b h = cc

some_rest : (s : String) → trim_space s ≢ "" → 0 < count s
unfolding trim_space Text.trim_left Text.trim_right
some_rest Chars.[] h = absurd (h refl)
some_rest (Chars.◌∷◌ c s) h = omega arith

HasBearer-bearer_token : (r : Request) (token : String) → HasBearer r token → bearer_token r ≡ token
unfolding bearer_token
HasBearer-bearer_token r token h =
    let size : count h.scheme ≡ 7 = equal_fold-count h.scheme "Bearer " h.is_bearer in
    let long : 0 < count h.rest = some_rest h.rest (λ e. h.some_token (sym h.trimmed ∙ e)) in
    let all : count r.authorization ≡ count h.scheme + count h.rest =
      ap count h.header ∙ count_append h.scheme h.rest in
    let enough : ltb 7 (count r.authorization) ≡ true = ground arith in
    let first : take 7 r.authorization ≡ h.scheme =
      ap (take 7) h.header
      ∙ subst (λ n. take n (h.scheme ++ h.rest) ≡ h.scheme) size (take_append h.scheme h.rest) in
    let last : drop 7 r.authorization ≡ h.rest =
      ap (drop 7) h.header
      ∙ subst (λ n. drop n (h.scheme ++ h.rest) ≡ h.rest) size (drop_append h.scheme h.rest) in
    rw (enough, first, last, h.is_bearer, h.trimmed) refl

-- The wrapped handler serves a request, with an identity, exactly if the request's header is
-- `Bearer `, in any case of its letters, and a text that, trimmed, is a token that is not empty and
-- validates to that identity.
pub protect_handler_iff :
    (validate : String → Result Verified) (prm_url : String) (r : Request) (v : Verified)
    → (protect_handler validate prm_url r ≡ served v)
      ↔ ((token : String) × HasBearer r token × (validate token ≡ ok v))
unfolding protect_handler
protect_handler_iff validate prm_url r v = (
  λ h. elim (Bool-cases (bearer_token r == "")) [
    | inl e ↦ absurd (not_served (rw e at h))
    | inr e ↦ (
      bearer_token r,
      bearer_token-HasBearer r (ne_of_test (bearer_token r) "" e),
      served-ok prm_url (validate (bearer_token r)) v (rw e at h),
    )
  ],
  λ (token, has, valid).
      let e = HasBearer-bearer_token r token has in
      rw (e, ne_test token "" has.some_token) (rw valid refl),
)
  where
    not_served : {a : Reply} {u : String} → ◌≢◌ {A = Gate} (challenged a u) (served v)
    not_served h = cc

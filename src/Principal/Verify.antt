-- ===== src/Principal/Verify.antt =====
-- principal.go's VerifyPrincipal: which identity an entered code establishes.
mod Sorted
pub mod Laws
use Prim.Native.String.{compare}
use Prim.Native.Nat.{Ordering}
use lib_agent_oauth.Prelude.{
  String, Bool, true, false, Option, none, some, List, [], ◌∷◌, if◌then◌else◌,
}
use lib_agent_oauth.Map
use lib_agent_oauth.Map.{Map}
use lib_agent_oauth.Exec.{◌>>=◌, pure}
use lib_agent_oauth.Env.{Env}
use lib_agent_oauth.Model.{M, PrincipalGrant, anonymous}
use lib_agent_oauth.JsonMap.{load}
use lib_agent_oauth.Pairing.{shared_code, normalize_pairing, equal_pairing}
use lib_agent_oauth.Principal.Codec.{PrincipalRecord, record_codec}
use lib_agent_oauth.Principal.{principals_store_key, stored_binding}

-- The order of `slices.Sorted` on texts.
abbrev pub text_le : String → String → Bool
text_le s t = elim (compare s t) [ Ordering.gt ↦ false | _ ↦ true ]

insert_sorted : String → List String → List String
insert_sorted s [] = s ∷ []
insert_sorted s (t ∷ l) = if text_le s t then s ∷ t ∷ l else t ∷ insert_sorted s l

unfoldable pub sorted : List String → List String
unfolding insert_sorted
sorted [] = []
sorted (s ∷ l) = insert_sorted s (sorted l)

-- `maps.Keys`
unfoldable pub keys {ℓ} : {V : Type ℓ} → Map V → List String
keys [] = []
keys ((k, v) ∷ m) = k ∷ keys m

-- pairingCandidate
pub record PairingCandidate : Type 0 where
  pub code : String
  pub grant : PrincipalGrant

-- The code of a stored principal.
abbrev pub stored_code : Option PrincipalRecord → String
stored_code none = ""
stored_code (some r) = r.code

abbrev pub named_candidate : String → Option PrincipalRecord → PairingCandidate
named_candidate name r = record {
  code = stored_code r;
  grant = record { name = name; binding = stored_binding r };
}

unfoldable pub named_candidates : Map PrincipalRecord → List String → List PairingCandidate
named_candidates records [] = []
named_candidates records (name ∷ names) =
    named_candidate name (Map.lookup name records) ∷ named_candidates records names

abbrev pub operator : String → PairingCandidate
operator shared = record { code = shared; grant = anonymous }

module _ ⦃env : Env⦄ where
  -- `candidates`: the shared code first, then the principals by name.
  unfoldable pub candidates : M (List PairingCandidate)
  candidates = do
    shared ← shared_code
    records ← load record_codec principals_store_key
    pure (operator shared ∷ named_candidates records (sorted (keys records)))

  -- `matched` and `found` in one: a match counts if there is none before it.
  abbrev pub first_match : Option PrincipalGrant → Bool → PrincipalGrant → Option PrincipalGrant
  first_match (some g) equal grant = some g
  first_match none equal grant = if equal then some grant else none

  unfoldable pub match_all :
      String → List PairingCandidate → Option PrincipalGrant → Option PrincipalGrant
  match_all got [] matched = matched
  match_all got (c ∷ cs) matched =
      match_all got cs (first_match matched (equal_pairing got c.code) c.grant)

  unfoldable pub verify_principal : String → M (Option PrincipalGrant)
  verify_principal input = do cs ← candidates; pure (match_all (normalize_pairing input) cs none)

-- ===== src/Principal/Verify/Sorted.antt =====
-- Laws of the sorted keys of a map.
use lib_agent_oauth.Prelude.{
  In, String, ◌≡◌, inl, inr, Bool-cases, some, List, [], ◌∷◌, eq_iff, eq_of_test, ◌==◌,
}
use lib_agent_oauth.Map
use lib_agent_oauth.Map.{Map}
use lib_agent_oauth.Principal.Verify.{sorted, insert_sorted, keys, text_le}

In-insert_sorted : (a s : String) (l : List String) → In a (s ∷ l) → In a (insert_sorted s l)
unfolding insert_sorted
In-insert_sorted a s [] h = h
In-insert_sorted a s (t ∷ l) h = elim (Bool-cases (text_le s t)) [
  | inl e ↦ rw e h
  | inr e ↦ rw e (elim h [
    | inl p ↦ inr (In-insert_sorted a s l (inl p))
    | inr (inl p) ↦ inl p
    | inr (inr p) ↦ inr (In-insert_sorted a s l (inr p))
  ])
]

insert_sorted-In : (a s : String) (l : List String) → In a (insert_sorted s l) → In a (s ∷ l)
unfolding insert_sorted
insert_sorted-In a s [] h = h
insert_sorted-In a s (t ∷ l) h = elim (Bool-cases (text_le s t)) [
  | inl e ↦ rw e at h
  | inr e ↦ elim (rw e at h) [
    | inl p ↦ inr (inl p)
    | inr p ↦ elim (insert_sorted-In a s l p) [ inl q ↦ inl q | inr q ↦ inr (inr q) ]
  ]
]

pub In-sorted : (a : String) (l : List String) → In a l → In a (sorted l)
unfolding sorted
In-sorted a [] h = h
In-sorted a (s ∷ l) (inl p) = In-insert_sorted a s (sorted l) (inl p)
In-sorted a (s ∷ l) (inr p) = In-insert_sorted a s (sorted l) (inr (In-sorted a l p))

pub sorted-In : (a : String) (l : List String) → In a (sorted l) → In a l
unfolding sorted
sorted-In a [] h = h
sorted-In a (s ∷ l) h = elim (insert_sorted-In a s (sorted l) h) [
  | inl p ↦ inl p
  | inr p ↦ inr (sorted-In a l p)
]

-- The keys of a map are the texts that it has a value for.
pub In-keys :
    {V : Type 0} (k : String) (m : Map V) {v : V} → Map.lookup k m ≡ some v → In k (keys m)
unfolding keys Map.lookup
In-keys k [] h = absurd (cc)
In-keys k ((j, w) ∷ m) h = elim (Bool-cases (j == k)) [
  | inl e ↦ inl (eq_of_test j k e)
  | inr e ↦ inr (In-keys k m (rw e at h))
]

pub keys-In :
    {V : Type 0} (k : String) (m : Map V) → In k (keys m) → (v : V) × (Map.lookup k m ≡ some v)
unfolding keys Map.lookup
keys-In k [] h = absurd h
keys-In k ((j, w) ∷ m) h = elim (Bool-cases (j == k)) [
  | inl e ↦ (w, rw e)
  | inr e ↦ rw e (elim h [ inl p ↦ absurd (cc (e, (eq_iff j k).1 p)) | inr p ↦ keys-In k m p ])
]

-- ===== src/Map.antt =====
-- A Go `map[string]V` as the list of its entries, with Go's operations on it and their laws.
use lib_agent_oauth.Prelude.{
  String, ◌≡◌, refl, Bool, true, false, Option, none, some, List, [], ◌∷◌, arith, ◌==◌, eq_iff,
  eq_refl, if◌then◌else◌,
}

abbrev pub Map {ℓ} : Type ℓ → Type ℓ
Map V = List (String × V)

module _ {ℓ} {V : Type ℓ} where
  -- `v, ok := m[k]`
  unfoldable pub lookup : String → Map V → Option V
  lookup k [] = none
  lookup k ((j, v) ∷ m) = if j == k then some v else lookup k m

  -- `delete(m, k)`
  unfoldable pub delete : String → Map V → Map V
  delete k [] = []
  delete k ((j, v) ∷ m) = let rest = delete k m in if j == k then rest else (j, v) ∷ rest

  -- `m[k] = v`: the one entry under the key is the new one.
  unfoldable pub insert : String → V → Map V → Map V
  unfolding delete
  insert k v m = (k, v) ∷ delete k m

  -- `for k, v := range m { if p(v) { delete(m, k) } }`
  unfoldable pub delete_if : (V → Bool) → Map V → Map V
  delete_if p [] = []
  delete_if p ((k, v) ∷ m) =
      let rest = delete_if p m in if p v then delete k rest else (k, v) ∷ rest

  -- `maps.Copy(dst, src)`
  unfoldable pub copy : Map V → Map V → Map V
  copy dst [] = dst
  copy dst ((k, v) ∷ src) = insert k v (copy dst src)

  -- Whether a value of the map passes the test.
  unfoldable pub any_value : (V → Bool) → Map V → Bool
  any_value p [] = false
  any_value p ((k, v) ∷ m) = if p v then true else any_value p m

  -- What `delete_if` leaves of a looked-up value.
  abbrev pub keep_unless : (V → Bool) → Option V → Option V
  keep_unless p none = none
  keep_unless p (some v) = if p v then none else some v

  pub lookup-delete :
      (k j : String) (m : Map V) → lookup j (delete k m) ≡ (if k == j then none else lookup j m)
  unfolding lookup delete
  lookup-delete k j [] = ground arith
  lookup-delete k j ((i, w) ∷ m) =
      ground (arith, eq_iff k j, eq_iff i k, eq_iff i j, lookup-delete k j m)

  pub lookup-insert :
      (key other : String) (v : V) (entries : Map V)
      → lookup other (insert key v entries)
        ≡ (if key == other then some v else lookup other entries)
  unfolding lookup insert
  lookup-insert key other v entries = ground (arith, lookup-delete key other entries)

  pub lookup-insert_same : (k : String) (v : V) (m : Map V) → lookup k (insert k v m) ≡ some v
  lookup-insert_same k v m = rw (lookup-insert k k v m) (rw eq_refl)

  pub lookup-delete_if :
      (p : V → Bool) (j : String) (m : Map V)
      → lookup j (delete_if p m) ≡ keep_unless p (lookup j m)
  unfolding lookup delete_if
  lookup-delete_if p j [] = refl
  lookup-delete_if p j ((i, w) ∷ m) =
      ground (arith, eq_iff i j, lookup-delete_if p j m, lookup-delete i j (delete_if p m))

  abbrev pub or_else : Option V → Option V → Option V
  or_else none o = o
  or_else (some v) o = some v

  pub lookup-copy :
      (j : String) (dst src : Map V)
      → lookup j (copy dst src) ≡ or_else (lookup j src) (lookup j dst)
  unfolding lookup copy
  lookup-copy j dst [] = refl
  lookup-copy j dst ((k, v) ∷ src) =
      ground (arith, lookup-insert k j v (copy dst src), lookup-copy j dst src)

  -- If no value passes the test, no looked-up value does.
  pub lookup-any_value :
      (p : V → Bool) (j : String) (v : V) (m : Map V)
      → any_value p m ≡ false
      → lookup j m ≡ some v
      → p v ≡ false
  unfolding lookup any_value
  lookup-any_value p j v [] h e = ground arith
  lookup-any_value p j v ((i, w) ∷ m) h e = ground (arith, lookup-any_value p j v m)

pub ruleset map_laws = (lookup-insert, lookup-delete, lookup-delete_if, lookup-copy)

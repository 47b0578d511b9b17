-- ===== src/JsonMap.antt =====
-- mapstore.go: a map that is kept as one JSON document under a key of the secret store. Its mutex
-- makes `get` and `mutate` one step each.
pub mod Laws
pub mod Draw
pub mod Keeps
use lib_agent_oauth.Prelude.{
  String, ◌≡◌, Bool, true, false, Option, some, none, [], ◌==◌, if◌then◌else◌,
}
use lib_agent_oauth.Map
use lib_agent_oauth.Map.{Map}
use lib_agent_oauth.Json.{Json}
use lib_agent_oauth.Json.Codec.{Codec, encode_map, decode_map}
use lib_agent_oauth.Exec.{Result, ok, err, ◌>>=◌, ◌>>◌, pure, lift}
use lib_agent_oauth.Env.{Env, Stored, plain, document}
use lib_agent_oauth.Model.{World, M}

module _ ⦃env : Env⦄ where
  -- `store.Get(key)`
  unfoldable pub store_get : String → M (Option Stored)
  store_get k w = (env.store.get w.store k, w)

  -- `store.Set(key, v)`
  unfoldable pub store_set : String → Stored → M (Unit {0})
  store_set k v w = let (r, s) = env.store.set w.store k v in (r, record w { store = s })

  -- `json.Unmarshal` of what is stored.
  unfoldable pub unmarshal : Stored → Option Json
  unmarshal (plain s) = env.parse_json s
  unmarshal (document j) = some j

  -- What a map-valued closure returns: the values that it captures, and the changed map if it
  -- reports a change.
  abbrev pub Change : Type 0 → Type 0 → Type 0
  Change A V = A × Option (Map V)

  -- `for k, v := range m { if p(v) { delete(m, k); changed = true } }; return changed`
  abbrev pub drop_where : {V : Type 0} → (V → Bool) → Map V → Change (Unit {0}) V
  drop_where p m = (tt, if Map.any_value p m then some (Map.delete_if p m) else none)

  module _ {V : Type 0} (c : Codec V) where
    decoded : Option Json → Result (Map V)
    decoded none = err "invalid JSON"
    decoded (some j) = elim (decode_map c j) [ none ↦ err "invalid JSON" | some m ↦ ok m ]

    -- The map that a stored value stands for; an absent or empty value is the empty map.
    unfoldable pub read_map : Option Stored → Result (Map V)
    unfolding decoded
    read_map none = ok []
    read_map (some (plain s)) = if s == "" then ok [] else decoded (unmarshal (plain s))
    read_map (some (document j)) = decoded (unmarshal (document j))

    unfoldable pub load : String → M (Map V)
    load key = do v ← store_get key; lift (read_map v)

    unfoldable pub save : String → Map V → M (Unit {0})
    save key m = store_set key (document (encode_map c m))

    unfoldable pub get : String → String → M (Option V)
    get key k = do m ← load key; pure (Map.lookup k m)

    -- `save` if the closure reports a change, and what it captured.
    unfoldable pub commit : {A : Type 0} → String → Change A V → M A
    commit key (a, none) = pure a
    commit key (a, some m) = do save key m; pure a

    unfoldable pub mutate : {A : Type 0} → String → (Map V → Change A V) → M A
    mutate key f = do m ← load key; commit key (f m)

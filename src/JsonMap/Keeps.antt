-- ===== src/JsonMap/Keeps.antt =====
-- What the operations of a stored map leave alone.
use lib_agent_oauth.Prelude.{ℕ, suc, String, ◌≡◌, refl, none, some}
use lib_agent_oauth.Map.{Map}
use lib_agent_oauth.Json.Codec.{Codec}
use lib_agent_oauth.Exec.{pure}
use lib_agent_oauth.Exec.Keeps.{Keeps, Keeps-pure, Keeps-lift, Keeps-bind}
use lib_agent_oauth.Env.{Env, Stored}
use lib_agent_oauth.Model.{World}
use lib_agent_oauth.Random.{read_random, rand_token}
use lib_agent_oauth.JsonMap.{
  store_get, store_set, Change, read_map, load, save, get, commit, mutate,
}

module _ ⦃env : Env⦄ {B : Type 0} (part : World env.S → B)
    (no_store : (w : World env.S) (s : env.S) → part (record w { store = s }) ≡ part w) where
  pub store_get-Keeps : (key : String) → Keeps part (store_get key)
  unfolding store_get
  store_get-Keeps key = record { at = λ w. refl }

  pub store_set-Keeps : (key : String) (v : Stored) → Keeps part (store_set key v)
  unfolding store_set
  store_set-Keeps key v = record { at = λ w. no_store w _ }

  module _ {V : Type 0} (c : Codec V) (key : String) where
    pub load-Keeps : Keeps part (load c key)
    unfolding load
    load-Keeps =
        Keeps-bind part (store_get key) _ (store_get-Keeps key)
          (λ v. Keeps-lift part (read_map c v))

    pub get-Keeps : (k : String) → Keeps part (get c key k)
    unfolding get
    get-Keeps k = Keeps-bind part (load c key) _ load-Keeps (λ m. Keeps-pure part _)

    commit-Keeps : {A : Type 0} (ch : Change A V) → Keeps part (commit c key ch)
    unfolding commit save
    commit-Keeps (a, none) = Keeps-pure part a
    commit-Keeps (a, some m) =
        Keeps-bind part _ (λ _. pure a) (store_set-Keeps key _) (λ _. Keeps-pure part a)

    pub mutate-Keeps : {A : Type 0} (f : Map V → Change A V) → Keeps part (mutate c key f)
    unfolding mutate
    mutate-Keeps f = Keeps-bind part (load c key) _ load-Keeps (λ m. commit-Keeps (f m))

module _ ⦃env : Env⦄ {B : Type 0} (part : World env.S → B)
    (no_drawn : (w : World env.S) → part (record w { drawn = suc w.drawn }) ≡ part w) where
  pub rand_token-Keeps : (n : ℕ) → Keeps part (rand_token n)
  unfolding rand_token read_random
  rand_token-Keeps n =
      Keeps-bind part (read_random n) _ (record { at = no_drawn }) (λ b. Keeps-pure part _)

-- ===== src/Random.antt =====
-- random.go: opaque tokens from the system's randomness.
pub mod Laws
use lib_agent_oauth.Prelude.{ℕ, suc, String, Option, none, some, List}
use lib_agent_oauth.Exec.{ok, err, Result, ◌>>=◌, pure}
use lib_agent_oauth.Env.{Env}
use lib_agent_oauth.Model.{World, M}
use lib_agent_oauth.Encode.{encode64}

module _ ⦃env : Env⦄ where
  abbrev pub drawn_bytes : Option (List ℕ) → Result (List ℕ)
  drawn_bytes none = err "reading randomness"
  drawn_bytes (some b) = ok b

  -- `rand.Read`: each read is a new one, whatever it gives.
  unfoldable pub read_random : ℕ → M (List ℕ)
  read_random n w = (drawn_bytes (env.entropy w.drawn n), record w { drawn = suc w.drawn })

  unfoldable pub rand_token : ℕ → M String
  rand_token nbytes = do b ← read_random nbytes; pure (encode64 b)

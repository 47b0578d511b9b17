-- ===== src/AuthCode.antt =====
-- authcode.go: single-use authorization codes, kept in memory. The store's mutex makes each of the
-- two operations one step.
pub mod Laws
use lib_agent_oauth.Prelude.{
  ℕ, ◌+◌, ◌*◌, String, Bool, true, false, Option, none, some, ltb, if◌then◌else◌,
}
use lib_agent_oauth.Map
use lib_agent_oauth.Exec.{ok, Result, ◌>>=◌, ◌>>◌, pure}
use lib_agent_oauth.Env.{Env}
use lib_agent_oauth.Model.{World, M, AuthGrant}
use lib_agent_oauth.Random.{rand_token}

-- server.go's `defaultAuthCodeTTL`, a minute in nanoseconds.
abbrev pub default_auth_code_ttl : ℕ
default_auth_code_ttl = 60 * 1000000000

module _ ⦃env : Env⦄ where
  -- `grant.expiresAt = …; s.m[code] = grant; return code`
  unfoldable pub put : ℕ → AuthGrant → String → M String
  put ttl grant code w = (
    ok code,
    record w { codes = Map.insert code (record grant { expires_at = w.now + ttl }) w.codes },
  )

  unfoldable pub issue : ℕ → AuthGrant → M String
  issue ttl grant = do code ← rand_token 32; put ttl grant code

  -- The grant, if it has not expired.
  unfoldable pub unexpired : ℕ → Option AuthGrant → Option AuthGrant
  unexpired now none = none
  unexpired now (some grant) = if ltb grant.expires_at now then none else some grant

  unfoldable pub consume : String → M (Option AuthGrant)
  unfolding unexpired
  consume code w =
      (ok (unexpired w.now (Map.lookup code w.codes)), record w { codes = Map.delete code w.codes })

-- ===== src/Identity.antt =====
-- session.go's sessionPrincipal and maybeStartSession: how a browser session stands for a code.
pub mod Laws
use lib_agent_oauth.Prelude.{
  ℕ, ◌/◌, String, Bool, true, false, not, Option, none, some, ◌==◌, if◌then◌else◌,
}
use lib_agent_oauth.Exec.{Result, ok, err, ◌>>=◌, pure}
use lib_agent_oauth.Env.{Env}
use lib_agent_oauth.Model.{World, M, PrincipalGrant, anonymous, Event, session_started}
use lib_agent_oauth.Http.{Values, get, Request, Cookie}
use lib_agent_oauth.Session
use lib_agent_oauth.Session.{SessionRecord}
use lib_agent_oauth.Principal.{grant_for}
use lib_agent_oauth.Server.{Server, event}

abbrev pub session_cookie : String
session_cookie = "__Host-agent_mcp_session"

-- authorize.go's codeEntered
unfoldable pub code_entered : Values → Bool
code_entered form = not (get form "pairing_code" == "")

module _ ⦃env : Env⦄ where
  -- The identity of a live record: a principal is looked up anew.
  unfoldable pub identity_of : Option SessionRecord → M (Option PrincipalGrant)
  identity_of none = pure none
  identity_of (some r) = if r.anonymous then pure (some anonymous) else grant_for r.principal

  abbrev pub cookie_identity : Option String → M (Option PrincipalGrant)
  cookie_identity none = pure none
  cookie_identity (some token) =
      if token == "" then pure none else (do r ← Session.lookup token; identity_of r)

  abbrev pub enabled_identity : Option ℕ → Request → M (Option PrincipalGrant)
  enabled_identity none r = pure none
  enabled_identity (some ttl) r = cookie_identity r.session_cookie

  -- sessionPrincipal; `none` is `ok=false`.
  unfoldable pub session_principal : Server → Request → M (Option PrincipalGrant)
  session_principal s r = enabled_identity s.session_ttl r

  -- The cookie of a session that was issued.
  abbrev pub cookie_of : ℕ → String → Cookie
  cookie_of ttl token = record {
    name = session_cookie;
    value = token;
    path = "/";
    max_age = ttl / 1000000000;
    secure = true;
    http_only = true;
    same_site_lax = true;
  }

  abbrev pub session_event : PrincipalGrant → Event
  session_event p = record {
    type = session_started;
    principal = p.name;
    client = "";
    resource = "";
    via = "";
  }

  -- What follows the attempt to issue a session: an error is passed over.
  abbrev pub announce :
      Server → ℕ → PrincipalGrant → Result String → World env.S → Option Cookie × World env.S
  announce s ttl p (ok token) w = (some (cookie_of ttl token), event s (session_event p) w)
  announce s ttl p (err e) w = (none, w)

  abbrev pub start_with :
      Option ℕ → Server → PrincipalGrant → World env.S → Option Cookie × World env.S
  start_with none s p w = (none, w)
  start_with (some ttl) s p w = let (r, w') = Session.issue ttl p w in announce s ttl p r w'

  -- maybeStartSession: the cookie that is set, if one is.
  unfoldable pub maybe_start_session :
      Server → Values → PrincipalGrant → World env.S → Option Cookie × World env.S
  maybe_start_session s form p w =
      if code_entered form then start_with s.session_ttl s p w else (none, w)

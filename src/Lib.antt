-- ===== src/Lib.antt =====
-- A local OAuth 2.1 authorization server and resource server for MCP tools (package `oauth`).
--
-- A client registers (clients.go), a person proves an identity with a pairing code (pairing.go,
-- principal.go) and may keep it as a browser session (session.go), and the client gets an
-- authorization code (authorize.go, authcode.go), after an enrollment or a choice where one is due
-- (enroll_flow.go, choose_page.go), that it redeems at the token endpoint (grant.go) for an access
-- token (token.go) and a refresh token (refresh.go). Principals, sessions, clients and refresh
-- tokens are maps in a secret store (mapstore.go, store.go); codes are in memory.
--
-- Text, Map, Json, Encode, Decode, Exec, Http and Jwt model what the program uses of Go: texts and
-- their trimming, maps as association lists, JSON trees with a codec per record, base64 and base32, a
-- function that returns an error and changes the world, requests and replies, and golang-jwt.
-- Env holds what comes from outside the repository: the backend of the secret store, randomness,
-- hashing, the Unicode case maps, URLs, tokens and the text of JSON; it is an argument of the
-- definitions. Model has the shared data and the state `World`: the store, the codes, the number of
-- random reads, the time in nanoseconds and the events that the observer was told.
--
--   store.go       Store        both backends, and what a client may rely on
--   mapstore.go    JsonMap      get, mutate, load, save
--   random.go      Random       randToken
--   authcode.go    AuthCode     issue, consume
--   refresh.go     Refresh      issue, exchange, removeForPrincipal
--   clients.go     Clients      Register, Get, allowsRedirect
--   session.go     Session      issue, lookup, removeForPrincipal
--                  Identity     sessionPrincipal, maybeStartSession
--   pairing.go     Pairing      Code, Rotate, generatePairingCode, normalizePairing
--   principal.go   Principal    the operations on principals; Verify has VerifyPrincipal
--   token.go       Token        MintFor, Mint, Validate
--                  Keys         NewIssuer, NewEd25519Issuer and the keys that they load or make
--   enrollment.go  Enrollment   the descriptors, Validate, mode
--   server.go      Server       the audiences, the scopes, resolveResource
--                  Configure    New
--   pkce.go        Pkce         verifyPKCE
--   grant.go       Grant        handleToken and what it calls
--   register.go    Register     handleRegister, validRedirectURI
--   authparams.go  AuthParams   the parameters of a request; authorize_step.go's classifyStep
--   authorize.go   Authorize    the gates, the form, the redirects and the issue of a code
--                  Approve      handleAuthorize, authorizeSubmit, divertToEnrollment, resolveSetBindings
--   enroll_flow.go EnrollFlow   submitFields, submitChoice, finish
--   choose_page.go Choose       sets and the choice of their members
--                  Pages        the replies of the enrollment and chooser pages
--   enroll_view.go EnrollView   the inputs of an enrollment form, and what is read back
--   protect.go     Protect      protectHandler, and httputil.go's bearerToken
--   resource.go    Delegate     NewResourceServer, Protect, NewEd25519Verifier, the metadata URL
--   metadata.go    Metadata     the discovery documents, and server.go's RegisterRoutes, prmURL, Protect
--   server.go      System       the endpoints, the operator's operations, time and restarts as steps
--
-- Each operation that a mutex guards is one step. An operation reads the time once. Values that
-- `json.Marshal` printed are stored as trees, so that reading them back needs no parser; other texts
-- are read with the parser of Env. A nil map and an empty one are told apart only where a parameter
-- of AddPrincipal does; a stored JSON `null` is read as an empty map, where in Go the map stays nil and
-- a later write panics. A query or a form has one value for each key, so further values of a key in a
-- redirect URI are not kept. An enrollment callback is always there. A duration is a number of
-- nanoseconds, which may be negative in a configuration. Recursion is structural throughout: no definition has fuel.
--
-- A page is the data that its template is given. Handlers are written in continuation style where the
-- source returns whether a reply was written. Frame says which part of the state an operation keeps.
--
-- Not modelled: the HTML text of the pages, the context values of WithPrincipal and PrincipalFrom, and
-- net/http: its multiplexer, the printing of headers and bodies, and the limits on a body's size.
pub mod Prelude
pub mod Map
pub mod Text
pub mod Encode
pub mod Json
pub mod Exec
pub mod Http
pub mod Jwt
pub mod Env
pub mod Model
pub mod Store
pub mod Decode
pub mod Random
pub mod JsonMap
pub mod AuthCode
pub mod Refresh
pub mod Clients
pub mod Session
pub mod Pairing
pub mod Principal
pub mod Token
pub mod Enrollment
pub mod Server
pub mod Pkce
pub mod Grant
pub mod Register
pub mod Identity
pub mod Frame
pub mod Keys
pub mod Configure
pub mod AuthParams
pub mod Choose
pub mod EnrollView
pub mod Authorize
pub mod Pages
pub mod EnrollFlow
pub mod Approve
pub mod Protect
pub mod Delegate
pub mod Metadata
pub mod System
pub mod Tests

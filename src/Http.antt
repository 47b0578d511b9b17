-- ===== src/Http.antt =====
-- The part of `net/http` and `net/url` that the handlers see: requests, and the replies that they
-- write. A page is the data that its template is given.
pub mod Laws
use lib_agent_oauth.Prelude.{ℕ, String, Bool, Option, none, some, List, [], ◌∷◌}
use lib_agent_oauth.Map
use lib_agent_oauth.Exec.{Exec, Result, ok, err}
use lib_agent_oauth.Map.{Map}

-- `url.Values` as it was parsed: the pairs in order, of which `Get` takes the first.
abbrev pub Values : Type 0
Values = List (String × String)

abbrev pub or_blank : Option String → String
or_blank none = ""
or_blank (some s) = s

-- `v.Get(k)`
unfoldable pub get : Values → String → String
get v k = or_blank (Map.lookup k v)

-- A URL as `url.Parse` reads it; `rest` is what the program only passes on.
pub record Url : Type 0 where
  pub scheme : String
  pub host : String
  pub hostname : String
  pub rest : String
  pub query : Map String

pub record Request : Type 0 where
  pub method : String
  -- `r.URL.Query()`
  pub query : Values
  -- `r.PostForm`, or `none` where `r.ParseForm` fails
  pub form : Option Values
  -- the value of the session cookie, if the request has one
  pub session_cookie : Option String
  -- `r.Header.Get("Authorization")`
  pub authorization : String

-- `http.Cookie`, as session.go sets it.
pub record Cookie : Type 0 where
  pub name : String
  pub value : String
  pub path : String
  pub max_age : ℕ
  pub secure : Bool
  pub http_only : Bool
  pub same_site_lax : Bool

-- The data of the approval form.
pub record ApprovalForm : Type 0 where
  pub client_name : String
  pub error : String
  pub session_name : String
  pub offer_update : Bool
  pub hidden : Map String

-- One input of the enrollment form, enroll_view.go's `enrollFieldView`.
pub record FieldView : Type 0 where
  pub name : String
  pub label : String
  pub help : String
  pub snippet : String
  pub value : String
  pub secret : Bool
  pub optional : Bool

-- enroll_view.go's `enrollModeView`
pub record ModeView : Type 0 where
  pub key : String
  pub label : String
  pub selected : Bool
  pub fields : List FieldView

pub record EnrollForm : Type 0 where
  pub title : String
  pub intro : String
  pub principal : String
  pub client_name : String
  pub error : String
  pub single_mode : Bool
  pub modes : List ModeView
  pub hidden : Map String

-- enrollment.go's `ChoiceOption`
pub record ChoiceOption : Type 0 where
  pub value : String
  pub label : String

-- choose_page.go's `chooseSet`
pub record ChooseSet : Type 0 where
  pub key : String
  pub options : List String

-- choose_page.go's `chooseView`
pub record ChooseView : Type 0 where
  pub error : String
  pub sets : List ChooseSet
  pub prompt : String
  pub options : List ChoiceOption
  pub state : String
  pub mode : String

pub record ChooseForm : Type 0 where
  pub client_name : String
  pub principal : String
  pub view : ChooseView
  pub hidden : Map String

-- The RFC 6749 token response.
pub record TokenResponse : Type 0 where
  pub access_token : String
  pub expires_in : ℕ
  pub refresh_token : String
  pub scope : String

pub data Body : Type 0 where
  oauth_error : String → String → Body
  token_response : TokenResponse → Body
  -- the id, the redirect URIs and the name of a client; the other members are constant
  registration : String → List String → String → Body
  error_page : String → Body
  approval_form : ApprovalForm → Body
  enroll_form : EnrollForm → Body
  choose_form : ChooseForm → Body
  redirect : Url → Body

pub record Reply : Type 0 where
  pub status : ℕ
  -- the header `Allow`, if it is set
  pub allow : Option String
  pub cookie : Option Cookie
  pub body : Body

abbrev pub reply : ℕ → Body → Reply
reply status body = record { status = status; allow = none; cookie = none; body = body }

-- writeOAuthError
abbrev pub oauth_error_reply : ℕ → String → String → Reply
oauth_error_reply status c desc = reply status (oauth_error c desc)

-- methodNotAllowed
abbrev pub method_not_allowed : Reply
method_not_allowed = record (oauth_error_reply 405 "invalid_request" "method not allowed") {
  allow = some "POST";
}

-- A handler always writes a reply.
abbrev pub Handler : Type 0 → Type 0
Handler W = W → Reply × W

module _ {W A : Type 0} where
  -- A call in a handler, which goes on with the value or with the error.
  abbrev pub settle : Result A → (A → Handler W) → (String → Handler W) → Handler W
  settle (ok a) f g = f a
  settle (err e) f g = g e

  abbrev pub on : Exec W A → (A → Handler W) → (String → Handler W) → Handler W
  on m f g w = settle (m w).0 f g (m w).1

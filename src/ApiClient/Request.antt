-- ===== src/ApiClient/Request.antt =====
-- `request`: one call of the API, with the CSRF token that it may fetch first.
pub mod Csrf
pub mod Failures
pub mod Traffic
use mathlib.Core.Option
use purels.ApiClient.Error.{ApiError, or_text, property, server_code, server_message, string_of}
use purels.Base.{
  Bool, List, Option, [], false, if◌then◌else◌, map, none, not, some, true, within, ℕ, ◌&&◌, ◌++◌,
  ◌==◌, ◌∷◌,
}
use purels.Js.Case.{CaseMapping}
use purels.Js.Decimal.{decimal}
use purels.Js.Headers.{Entries, set_entry}
use purels.Js.Json.{Value, null, str, stringify, undefined}
use purels.Js.Text.{Text, contains_text, includes, is_empty, starts_with, text}

pub data Body : Type 0 where
  no_body : Body
  -- Already serialised: text, a form or a blob.
  raw_body : Text → Body
  json_body : Value → Body

pub record Options : Type 0 where
  pub method : Option Text
  pub headers : Entries
  pub body : Body

pub record HttpRequest : Type 0 where
  pub url : Text
  pub method : Option Text
  pub headers : Entries
  pub body : Option Text

-- `parsed` is what `response.json()` gives and `body_text` what `response.text()` gives, each `none`
-- where the promise is rejected.
pub record Response : Type 0 where
  pub status : ℕ
  pub content_type : Option Text
  pub parsed : Option Value
  pub body_text : Option Text

pub data Reply : Type 0 where
  unreachable : Reply
  replied : Response → Reply

pub data Outcome : Type 0 where
  success : Value → Outcome
  failure : ApiError → Outcome

abbrev pub is_ok : Response → Bool
is_ok r = within 200 299 r.status

-- `preSessionPaths`.
abbrev pub pre_session_paths : List Text
pre_session_paths =
    text "/api/v1/auth/login" ∷ text "/api/v1/auth/register" ∷ text "/api/v1/auth/2fa/verify" ∷ []

abbrev is_json_body : Body → Bool
is_json_body (json_body _) = true
is_json_body _ = false

abbrev sent_body : Body → Option Text
sent_body no_body = none
sent_body (raw_body s) = some s
sent_body (json_body v) = some (stringify v)

abbrev pub csrf_header : Text
csrf_header = text "x-csrf-token"

-- The names that `Headers` keeps are in lower case.
abbrev json_headers : Options → Entries
json_headers o =
    if is_json_body o.body
    then set_entry o.headers (text "content-type") (text "application/json")
    else o.headers

abbrev header_value : Option Text → Text
header_value none = []
header_value (some s) = s

abbrev or_undefined : Option Value → Value
or_undefined none = undefined
or_undefined (some v) = v

-- A rejected promise leaves `undefined`.
abbrev pub payload_of : Response → Value
payload_of r =
    if contains_text (header_value r.content_type) (text "application/json")
    then or_undefined r.parsed
    else or_undefined (Option.map str r.body_text)

abbrev pub network_error : ApiError
network_error = record {
  message = text "Cannot reach the API server. Check the backend address.";
  status = 0;
  code = text "network";
  details = undefined;
}

abbrev pub session_expired : Value → ApiError
session_expired payload = record {
  message = text "Your session has expired. Please sign in again.";
  status = 401;
  code = text "session_expired";
  details = payload;
}

abbrev pub response_error : ℕ → Value → ApiError
response_error status payload = record {
  message =
      or_text (server_message payload) (text "Request failed (" ++ (decimal status ++ text ")."));
  status = status;
  code = or_text (server_code payload) (text "http_error");
  details = payload;
}

-- The page and the module's state; `world` is everything that the network talks to.
pub record Client (W : Type 0) : Type 0 where
  pub csrf_token : Text
  -- `window.location.pathname`, or `none` on the server, and the calls of `location.replace`.
  pub window_path : Option Text
  pub replaced : List Text
  pub sent : List HttpRequest
  pub world : W

module _ {W : Type 0} (case : CaseMapping) (serve : W → HttpRequest → Reply × W) where
  -- `fetch`.
  abbrev fetch : HttpRequest → Client W → Reply × Client W
  fetch q c =
      ((serve c.world q).0, record c { sent = c.sent ++ (q ∷ []); world = (serve c.world q).1 })

  abbrev pub is_mutation : Option Text → Bool
  is_mutation none = false
  is_mutation (some m) =
      not (is_empty m)
      && not (includes (text "GET" ∷ text "HEAD" ∷ text "OPTIONS" ∷ []) (case.to_upper m))

  abbrev csrf_request : Text → HttpRequest
  csrf_request base = record {
    url = base ++ text "/api/v1/auth/csrf";
    method = none;
    headers = [];
    body = none;
  }

  -- `csrfPayload.token || ""`: reading a property of null is an error, which keeps the old token.
  abbrev token_in : Text → Option Value → Text
  token_in old none = old
  token_in old (some null) = old
  token_in old (some undefined) = old
  token_in old (some v) = string_of (property v (text "token"))

  -- The token in the reply; any failure is left to the request itself to report.
  abbrev token_of : Text → Reply → Text
  token_of old unreachable = old
  token_of old (replied r) = if is_ok r then token_in old r.parsed else old

  unfoldable pub refresh_csrf : Text → Client W → Client W
  refresh_csrf base c =
      let (reply, c') = fetch (csrf_request base) c in
      record c' { csrf_token = token_of c.csrf_token reply }

  abbrev needs_csrf : Text → Options → Client W → Bool
  needs_csrf path o c =
      is_mutation o.method && is_empty c.csrf_token && not (includes pre_session_paths path)

  abbrev prepare : Text → Text → Options → Client W → Client W
  prepare base path o c = if needs_csrf path o c then refresh_csrf base c else c

  abbrev request_headers : Options → Text → Entries
  request_headers o token =
      if is_mutation o.method && not (is_empty token)
      then set_entry (json_headers o) csrf_header token
      else json_headers o

  abbrev pub http_request : Text → Text → Options → Text → HttpRequest
  http_request base path o token = record {
    url = base ++ path;
    method = o.method;
    headers = request_headers o token;
    body = sent_body o.body;
  }

  -- The redirect of an expired session.
  abbrev leave_for_login : Text → Client W → Client W
  leave_for_login pathname c =
      if starts_with (text "/login") pathname
      then c
      else record c { replaced = c.replaced ++ (text "/login" ∷ []) }

  abbrev expire : Option Text → Value → Response → Client W → Outcome × Client W
  expire none payload r c = (failure (response_error r.status payload), c)
  expire (some pathname) payload r c =
      (failure (session_expired payload), leave_for_login pathname c)

  unfoldable pub conclude : Text → Reply → Client W → Outcome × Client W
  conclude path unreachable c = (failure network_error, c)
  conclude path (replied r) c =
      if is_ok r
      then (success (payload_of r), c)
      else if r.status == 401 && not (includes pre_session_paths path)
      then expire c.window_path (payload_of r) r c
      else (failure (response_error r.status (payload_of r)), c)

  unfoldable pub request : Text → Text → Options → Client W → Outcome × Client W
  unfolding refresh_csrf conclude
  request base path o c =
      let ready = prepare base path o c in
      let (reply, c') = fetch (http_request base path o ready.csrf_token) ready in
      conclude path reply c'

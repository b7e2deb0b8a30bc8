-- ===== src/Server/Reads.antt =====
-- The server's reads of the API, with their answers on failure.
pub mod Defaults
use purels.Analytics.Config.{AnalyticsConfig, parse_analytics_config}
use purels.ApiClient.Error.{or_text}
use purels.ApiClient.Request.{HttpRequest, Reply, Response, is_ok, replied, unreachable}
use purels.Base.{
  Bool, List, Option, [], arith, false, if◌then◌else◌, none, not, some, true, ◌++◌, ◌↔◌, ◌∷◌, ◌≡◌,
}
use purels.Js.Headers.{Entries, get_entry}
use purels.Js.Json.{Fields, Value, bool, get, obj}
use purels.Js.Text.{Text, drop_slash, is_empty, text}

-- `(process.env.API_PROXY_TARGET || "http://localhost:8080").replace(/\/$/, "")`.
unfoldable pub api_base : Text → Text
unfolding drop_slash
api_base target = drop_slash (or_text target (text "http://localhost:8080"))

abbrev pub session_cookie : Text
session_cookie = text "purels_session"

abbrev read_request : Text → Entries → HttpRequest
read_request url headers = record { url = url; method = none; headers = headers; body = none }

abbrev pub is_ok_reply : Reply → Bool
is_ok_reply unreachable = false
is_ok_reply (replied r) = is_ok r

abbrev pub has_cookie : Option Text → Bool
has_cookie none = false
has_cookie (some s) = not (is_empty s)

-- `payload?.registration_enabled !== false`.
abbrev pub is_not_false : Value → Bool
is_not_false (bool b) = b
is_not_false _ = true

module _ (serve : HttpRequest → Reply) (target : Text) where
  abbrev pub me_request : Text → HttpRequest
  me_request jar_text =
      read_request (api_base target ++ text "/api/v1/auth/me") ((text "cookie", jar_text) ∷ [])

  -- `hasSession`, with the requests that it makes; `jar_text` is `jar.toString()`.
  unfoldable pub has_session : Entries → Text → List HttpRequest × Bool
  unfolding get_entry
  has_session jar jar_text =
      if not (has_cookie (get_entry jar session_cookie))
      then ([], false)
      else (me_request jar_text ∷ [], is_ok_reply (serve (me_request jar_text)))

  abbrev pub is_open : Value → Bool
  is_open (obj fs) = is_not_false (get fs (text "registration_enabled"))
  is_open _ = true

  abbrev pub open_by : Option Value → Bool
  open_by none = true
  open_by (some v) = is_open v

  abbrev pub captcha_request : HttpRequest
  captcha_request = read_request (api_base target ++ text "/api/v1/auth/captcha") []

  abbrev pub registration_by : Reply → Bool
  registration_by unreachable = true
  registration_by (replied r) = if not (is_ok r) then true else open_by r.parsed

  unfoldable pub registration_enabled : Bool
  unfolding get
  registration_enabled = registration_by (serve captcha_request)

  abbrev pub analytics_request : HttpRequest
  analytics_request = read_request (api_base target ++ text "/api/v1/analytics/public") []

  abbrev pub config_of : Option Value → Option AnalyticsConfig
  config_of none = none
  config_of (some v) = parse_analytics_config v

  abbrev pub config_by : Reply → Option AnalyticsConfig
  config_by unreachable = none
  config_by (replied r) = if not (is_ok r) then none else config_of r.parsed

  unfoldable pub public_analytics_config : Option AnalyticsConfig
  unfolding parse_analytics_config
  public_analytics_config = config_by (serve analytics_request)

  -- A good reply whose body is JSON.
  pub record Answered (q : HttpRequest) (v : Value) : Type 0 where
    pub response : Response
    pub reply : serve q ≡ replied response
    pub good : is_ok response ≡ true
    pub json : response.parsed ≡ some v

  -- A session is reported exactly when the cookie is there and the service knows it.
  pub has_session_iff :
      (jar : Entries) (jar_text : Text)
      → ((has_session jar jar_text).1 ≡ true) ↔ (
          (has_cookie (get_entry jar session_cookie) ≡ true)
          × (is_ok_reply (serve (me_request jar_text)) ≡ true))
  unfolding has_session
  has_session_iff jar jar_text = ground arith

  -- A visitor without the cookie costs no request.
  pub has_session_anonymous :
      (jar : Entries) (jar_text : Text)
      → has_cookie (get_entry jar session_cookie) ≡ false
      → has_session jar jar_text ≡ ([], false)
  unfolding has_session
  has_session_anonymous jar jar_text h = rw h

  abbrev pub IsClosing : Value → Type 0
  IsClosing v = (fs : Fields) × (v ≡ obj fs) × (get fs (text "registration_enabled") ≡ bool false)

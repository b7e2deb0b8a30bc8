-- ===== src/ApiClient/Endpoints/Account.antt =====
-- `api.auth`, `api.mfa` and `api.tokens`.
use purels.ApiClient.Endpoints.{
  Endpoint, delete, gives_token, listed, one_field, post, reads, resource, sends, signs_in,
  two_fields, unwrapped, whole,
}
use purels.ApiClient.Request.{json_body, no_body}
use purels.Base.{[], some, ◌∷◌}
use purels.Js.Json.{Fields, Value, end, field, obj, str}
use purels.Js.Text.{Text, text}

pub data AccountCall : Type 0 where
  login : Text → Text → AccountCall
  register : Text → Text → Text → AccountCall
  csrf me logout mfa_status mfa_enroll : AccountCall
  mfa_verify : Text → Text → AccountCall
  mfa_confirm : Text → AccountCall
  mfa_disable : Text → Text → AccountCall
  tokens_list : AccountCall
  tokens_create : Text → AccountCall
  tokens_revoke : Text → AccountCall

-- `...(captchaToken ? { captcha_token: captchaToken } : {})`.
abbrev captcha_field : Text → Fields
captcha_field [] = end
captcha_field (c ∷ s) = field (text "captcha_token") (str (c ∷ s)) end

abbrev credentials : Text → Text → Fields → Value
credentials username password more =
    obj (field (text "username") (str username) (field (text "password") (str password) more))

unfoldable pub account_endpoint : AccountCall → Endpoint
unfolding resource
account_endpoint (login username password) =
    sends post (some (text "/api/v1/auth/login")) (json_body (credentials username password end))
      signs_in
account_endpoint (register username password captcha_token) =
    sends post (some (text "/api/v1/auth/register"))
      (json_body (credentials username password (captcha_field captcha_token))) signs_in
account_endpoint csrf = reads (text "/api/v1/auth/csrf") gives_token
account_endpoint me = reads (text "/api/v1/auth/me") (unwrapped (text "user"))
account_endpoint logout = sends post (some (text "/api/v1/auth/logout")) no_body whole
account_endpoint mfa_status = reads (text "/api/v1/auth/2fa") whole
account_endpoint (mfa_verify challenge code) =
    sends post (some (text "/api/v1/auth/2fa/verify"))
      (json_body (two_fields "challenge" (str challenge) "code" (str code))) signs_in
account_endpoint mfa_enroll = sends post (some (text "/api/v1/auth/2fa/enroll")) no_body whole
account_endpoint (mfa_confirm code) =
    sends post (some (text "/api/v1/auth/2fa/confirm")) (json_body (one_field "code" (str code)))
      whole
account_endpoint (mfa_disable password code) =
    sends post (some (text "/api/v1/auth/2fa/disable"))
      (json_body (two_fields "password" (str password) "code" (str code))) whole
account_endpoint tokens_list = reads (text "/api/v1/auth/tokens") (listed (text "tokens"))
account_endpoint (tokens_create name) =
    sends post (some (text "/api/v1/auth/tokens")) (json_body (one_field "name" (str name))) whole
account_endpoint (tokens_revoke id) =
    sends delete (resource (text "/api/v1/auth/tokens/") id []) no_body whole

-- ===== src/ApiClient/Endpoints/Administration.antt =====
-- `api.users`, `api.roles`, `api.oidc`, `api.captcha`, `api.analytics` and `api.runtimeSettings`.
use purels.ApiClient.Endpoints.{
  Endpoint, delete, listed, patch, post, put, reads, resource, sends, two_fields, unwrapped, whole,
}
use purels.ApiClient.Request.{json_body, no_body}
use purels.Base.{[], some}
use purels.Js.Json.{Value, num}
use purels.Js.Text.{Text, text}

pub data AdminCall : Type 0 where
  users_list roles_list : AdminCall
  users_update : Text → Value → AdminCall
  users_reset_mfa : Text → AdminCall
  roles_update : Text → Value → AdminCall
  oidc_public_providers oidc_list : AdminCall
  oidc_create : Value → AdminCall
  oidc_update : Text → Value → AdminCall
  oidc_remove : Text → AdminCall
  captcha_public captcha_get analytics_get runtime_get : AdminCall
  captcha_update analytics_update runtime_update : Value → AdminCall
  -- The revision is a number, given by its text.
  runtime_patch : Text → Value → AdminCall

unfoldable pub admin_endpoint : AdminCall → Endpoint
unfolding resource
admin_endpoint users_list = reads (text "/api/v1/users") (listed (text "users"))
admin_endpoint (users_update id input) =
    sends patch (resource (text "/api/v1/users/") id []) (json_body input) whole
admin_endpoint (users_reset_mfa id) =
    sends post (resource (text "/api/v1/users/") id (text "/2fa/reset")) no_body whole
admin_endpoint roles_list = reads (text "/api/v1/roles") (listed (text "roles"))
admin_endpoint (roles_update name input) =
    sends patch (resource (text "/api/v1/roles/") name []) (json_body input) whole
admin_endpoint oidc_public_providers =
    reads (text "/api/v1/auth/oidc/providers") (listed (text "providers"))
admin_endpoint oidc_list = reads (text "/api/v1/oidc/providers") whole
admin_endpoint (oidc_create input) =
    sends post (some (text "/api/v1/oidc/providers")) (json_body input)
      (unwrapped (text "provider"))
admin_endpoint (oidc_update id input) =
    sends patch (resource (text "/api/v1/oidc/providers/") id []) (json_body input)
      (unwrapped (text "provider"))
admin_endpoint (oidc_remove id) =
    sends delete (resource (text "/api/v1/oidc/providers/") id []) no_body whole
admin_endpoint captcha_public = reads (text "/api/v1/auth/captcha") (unwrapped (text "captcha"))
admin_endpoint captcha_get = reads (text "/api/v1/captcha") (unwrapped (text "captcha"))
admin_endpoint (captcha_update input) =
    sends patch (some (text "/api/v1/captcha")) (json_body input) (unwrapped (text "captcha"))
admin_endpoint analytics_get = reads (text "/api/v1/analytics") (unwrapped (text "analytics"))
admin_endpoint (analytics_update input) =
    sends put (some (text "/api/v1/analytics")) (json_body input) (unwrapped (text "analytics"))
admin_endpoint (runtime_patch revision edits) =
    sends patch (some (text "/api/v1/settings/runtime"))
      (json_body (two_fields "revision" (num revision) "changes" edits))
      (unwrapped (text "settings"))
admin_endpoint runtime_get = reads (text "/api/v1/settings/runtime") (unwrapped (text "settings"))
admin_endpoint (runtime_update input) =
    sends put (some (text "/api/v1/settings/runtime")) (json_body input)
      (unwrapped (text "settings"))

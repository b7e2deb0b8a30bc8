-- ===== src/ApiClient/Endpoints/Calls/Protection.antt =====
-- Which calls of the API carry a CSRF token (lib/api-client.ts).
use purels.ApiClient.Endpoints.{Endpoint, delete, patch, post, put}
use purels.ApiClient.Endpoints.Account.{
  AccountCall, account_endpoint, csrf, login, logout, me, mfa_confirm, mfa_disable, mfa_enroll,
  mfa_status, mfa_verify, register, tokens_create, tokens_list, tokens_revoke,
}
use purels.ApiClient.Endpoints.Administration.{
  AdminCall, admin_endpoint, analytics_get, analytics_update, captcha_get, captcha_public,
  captcha_update, oidc_create, oidc_list, oidc_public_providers, oidc_remove, oidc_update,
  roles_list, roles_update, runtime_get, runtime_patch, runtime_update, users_list, users_reset_mfa,
  users_update,
}
use purels.ApiClient.Endpoints.Calls.{ApiCall, account, admin, endpoint, link, only_reads, stats}
use purels.ApiClient.Endpoints.Links.{
  LinkCall, audit_list, link_endpoint, links_bulk, links_check, links_create, links_export,
  links_get, links_import, links_list, links_remove, links_update,
}
use purels.ApiClient.Endpoints.Statistics.{
  StatsCall, config, stats_endpoint, stats_link, stats_link_clicks, stats_overview, stats_summary,
  stats_top, tags_list,
}
use purels.ApiClient.Request.{HttpRequest, Reply, is_mutation}
use purels.Base.{Bool, Option, arith, false, not, refl, some, true, ◌≡◌}
use purels.Js.Case.{CaseMapping}
use purels.Js.Text.{Text, includes}

module _ {W : Type 0} (case : CaseMapping) (serve : W → HttpRequest → Reply × W) where
  abbrev Mutates : Option Text → Bool → Type 0
  Mutates method b = is_mutation case serve method ≡ b

  post-Mutates : Mutates (some post) true
  unfolding includes
  post-Mutates = rw (case.to_upper_ascii post (omega arith))

  patch-Mutates : Mutates (some patch) true
  unfolding includes
  patch-Mutates = rw (case.to_upper_ascii patch (omega arith))

  put-Mutates : Mutates (some put) true
  unfolding includes
  put-Mutates = rw (case.to_upper_ascii put (omega arith))

  delete-Mutates : Mutates (some delete) true
  unfolding includes
  delete-Mutates = rw (case.to_upper_ascii delete (omega arith))

  abbrev IsWrite : Endpoint → Bool → Type 0
  IsWrite e b = Mutates e.options.method b

  account-IsWrite : (a : AccountCall) → IsWrite (account_endpoint a) (not (only_reads (account a)))
  unfolding account_endpoint
  account-IsWrite (login _ _) = post-Mutates
  account-IsWrite (register _ _ _) = post-Mutates
  account-IsWrite csrf = refl
  account-IsWrite me = refl
  account-IsWrite logout = post-Mutates
  account-IsWrite mfa_status = refl
  account-IsWrite mfa_enroll = post-Mutates
  account-IsWrite (mfa_verify _ _) = post-Mutates
  account-IsWrite (mfa_confirm _) = post-Mutates
  account-IsWrite (mfa_disable _ _) = post-Mutates
  account-IsWrite tokens_list = refl
  account-IsWrite (tokens_create _) = post-Mutates
  account-IsWrite (tokens_revoke _) = delete-Mutates

  link-IsWrite : (l : LinkCall) → IsWrite (link_endpoint l) (not (only_reads (link l)))
  unfolding link_endpoint
  link-IsWrite (links_list _) = refl
  link-IsWrite (links_export _) = refl
  link-IsWrite (links_get _) = refl
  link-IsWrite (links_remove _) = delete-Mutates
  link-IsWrite (links_check _) = post-Mutates
  link-IsWrite (links_create _) = post-Mutates
  link-IsWrite (links_bulk _) = post-Mutates
  link-IsWrite (links_update _ _) = patch-Mutates
  link-IsWrite (links_import _) = post-Mutates
  link-IsWrite (audit_list _ _ _) = refl

  admin-IsWrite : (a : AdminCall) → IsWrite (admin_endpoint a) (not (only_reads (admin a)))
  unfolding admin_endpoint
  admin-IsWrite users_list = refl
  admin-IsWrite roles_list = refl
  admin-IsWrite (users_update _ _) = patch-Mutates
  admin-IsWrite (users_reset_mfa _) = post-Mutates
  admin-IsWrite (roles_update _ _) = patch-Mutates
  admin-IsWrite oidc_public_providers = refl
  admin-IsWrite oidc_list = refl
  admin-IsWrite (oidc_create _) = post-Mutates
  admin-IsWrite (oidc_update _ _) = patch-Mutates
  admin-IsWrite (oidc_remove _) = delete-Mutates
  admin-IsWrite captcha_public = refl
  admin-IsWrite captcha_get = refl
  admin-IsWrite analytics_get = refl
  admin-IsWrite runtime_get = refl
  admin-IsWrite (captcha_update _) = patch-Mutates
  admin-IsWrite (analytics_update _) = put-Mutates
  admin-IsWrite (runtime_update _) = put-Mutates
  admin-IsWrite (runtime_patch _ _) = patch-Mutates

  stats-IsWrite : (s : StatsCall) → IsWrite (stats_endpoint s) false
  unfolding stats_endpoint
  stats-IsWrite tags_list = refl
  stats-IsWrite config = refl
  stats-IsWrite stats_summary = refl
  stats-IsWrite (stats_top _ _ _) = refl
  stats-IsWrite (stats_overview _) = refl
  stats-IsWrite (stats_link _ _) = refl
  stats-IsWrite (stats_link_clicks _ _ _ _) = refl

  pub endpoint-IsWrite : (a : ApiCall) → IsWrite (endpoint a) (not (only_reads a))
  endpoint-IsWrite (account a) = account-IsWrite a
  endpoint-IsWrite (link l) = link-IsWrite l
  endpoint-IsWrite (admin a) = admin-IsWrite a
  endpoint-IsWrite (stats s) = stats-IsWrite s

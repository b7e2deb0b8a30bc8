-- ===== src/ApiClient/Endpoints/Calls.antt =====
-- Every endpoint as one call: which are writes, and which make a session.
pub mod Protection
pub mod Sessions
pub mod Readiness
pub mod Login
use purels.ApiClient.Endpoints.{Endpoint}
use purels.ApiClient.Endpoints.Account.{
  AccountCall, account_endpoint, csrf, login, me, mfa_status, mfa_verify, register, tokens_list,
}
use purels.ApiClient.Endpoints.Administration.{
  AdminCall, admin_endpoint, analytics_get, captcha_get, captcha_public, oidc_list,
  oidc_public_providers, roles_list, runtime_get, users_list,
}
use purels.ApiClient.Endpoints.Links.{
  LinkCall, audit_list, link_endpoint, links_export, links_get, links_list,
}
use purels.ApiClient.Endpoints.Statistics.{StatsCall, stats_endpoint}
use purels.Base.{Bool, false, true}

pub data ApiCall : Type 0 where
  account : AccountCall → ApiCall
  link : LinkCall → ApiCall
  admin : AdminCall → ApiCall
  stats : StatsCall → ApiCall

abbrev pub endpoint : ApiCall → Endpoint
endpoint (account a) = account_endpoint a
endpoint (link l) = link_endpoint l
endpoint (admin a) = admin_endpoint a
endpoint (stats s) = stats_endpoint s

-- The calls that only read, from what their names say.
abbrev reads_account : AccountCall → Bool
reads_account csrf = true
reads_account me = true
reads_account mfa_status = true
reads_account tokens_list = true
reads_account _ = false

abbrev reads_link : LinkCall → Bool
reads_link (links_list _) = true
reads_link (links_get _) = true
reads_link (links_export _) = true
reads_link (audit_list _ _ _) = true
reads_link _ = false

abbrev reads_admin : AdminCall → Bool
reads_admin users_list = true
reads_admin roles_list = true
reads_admin oidc_public_providers = true
reads_admin oidc_list = true
reads_admin captcha_public = true
reads_admin captcha_get = true
reads_admin analytics_get = true
reads_admin runtime_get = true
reads_admin _ = false

abbrev pub only_reads : ApiCall → Bool
only_reads (account a) = reads_account a
only_reads (link l) = reads_link l
only_reads (admin a) = reads_admin a
only_reads (stats s) = true

-- The calls that make a session.
abbrev opens_session : AccountCall → Bool
opens_session (login _ _) = true
opens_session (register _ _ _) = true
opens_session (mfa_verify _ _) = true
opens_session _ = false

abbrev pub makes_session : ApiCall → Bool
makes_session (account a) = opens_session a
makes_session _ = false

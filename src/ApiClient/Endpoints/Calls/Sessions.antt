-- ===== src/ApiClient/Endpoints/Calls/Sessions.antt =====
-- Which calls are reachable before a session exists, and what a session gives to later calls.
use purels.ApiClient.Endpoints.{Endpoint, call, resource, thrown}
use purels.ApiClient.Endpoints.Account.{
  AccountCall, account_endpoint, csrf, login, logout, me, mfa_confirm, mfa_disable, mfa_enroll,
  mfa_status, mfa_verify, register, tokens_create, tokens_list, tokens_revoke,
}
use purels.ApiClient.Endpoints.Administration.{
  AdminCall, admin_endpoint, analytics_get, analytics_update, captcha_get, captcha_public,
  captcha_update, oidc_create, oidc_list, oidc_public_providers, oidc_remove, oidc_update,
  roles_list, roles_update, runtime_get, runtime_patch, runtime_update, users_list, users_reset_mfa,
  users_update,
}
use purels.ApiClient.Endpoints.Calls.{
  ApiCall, account, admin, endpoint, link, makes_session, only_reads, stats,
}
use purels.ApiClient.Endpoints.Calls.Protection.{endpoint-IsWrite}
use purels.ApiClient.Endpoints.Links.{
  LinkCall, audit_list, link_endpoint, links_bulk, links_check, links_create, links_export,
  links_get, links_import, links_list, links_path, links_remove, links_update,
}
use purels.ApiClient.Endpoints.Statistics.{
  StatsCall, config, stats_endpoint, stats_link, stats_link_clicks, stats_overview, stats_summary,
  stats_top, tags_list,
}
use purels.ApiClient.Request.{Client, HttpRequest, Reply, is_mutation, pre_session_paths}
use purels.Base.{Bool, Option-cases, [], false, inl, inr, none, not, refl, some, true, ◌++◌, ◌≡◌}
use purels.Js.Case.{CaseMapping}
use purels.Js.Text.{Text, includes, text}
use purels.Js.Uri.{encode_uri_component}

abbrev is_early : Text → Bool
is_early path = includes pre_session_paths path

abbrev At : Endpoint → Bool → Type 0
At e b = (path : Text) → e.path ≡ some path → is_early path ≡ b

fixed_path : (s path : Text) (b : Bool) → is_early s ≡ b → some s ≡ some path → is_early path ≡ b
fixed_path s path b h e = let p : s ≡ path = cc in rw (← p) h

resource_path :
    (prefix id suffix path : Text)
    → ((rest : Text) → is_early (prefix ++ rest) ≡ false)
    → resource prefix id suffix ≡ some path
    → is_early path ≡ false
unfolding resource
resource_path prefix id suffix path h e = elim (Option-cases (encode_uri_component id)) [
  | inl stuck ↦ cc (rw stuck at e)
  | inr (segment, ok) ↦
      let p : prefix ++ (segment ++ suffix) ≡ path = cc (rw ok at e) in
      rw (← p) (h (segment ++ suffix))
]

account-At : (a : AccountCall) → At (account_endpoint a) (makes_session (account a))
unfolding account_endpoint includes
account-At (login _ _) path e = fixed_path _ path true refl e
account-At (register _ _ _) path e = fixed_path _ path true refl e
account-At csrf path e = fixed_path _ path false refl e
account-At me path e = fixed_path _ path false refl e
account-At logout path e = fixed_path _ path false refl e
account-At mfa_status path e = fixed_path _ path false refl e
account-At mfa_enroll path e = fixed_path _ path false refl e
account-At (mfa_verify _ _) path e = fixed_path _ path true refl e
account-At (mfa_confirm _) path e = fixed_path _ path false refl e
account-At (mfa_disable _ _) path e = fixed_path _ path false refl e
account-At tokens_list path e = fixed_path _ path false refl e
account-At (tokens_create _) path e = fixed_path _ path false refl e
account-At (tokens_revoke id) path e =
    resource_path (text "/api/v1/auth/tokens/") id [] path (λ rest. refl) e

link_id :
    (id suffix : Text) (path : Text)
    → resource links_path id suffix ≡ some path
    → is_early path ≡ false
unfolding includes
link_id id suffix path e = resource_path links_path id suffix path (λ rest. refl) e

link-At : (l : LinkCall) → At (link_endpoint l) false
unfolding link_endpoint includes
link-At (links_list p) path e = fixed_path _ path false refl e
link-At (links_export p) path e = fixed_path _ path false refl e
link-At (links_get id) path e = link_id id [] path e
link-At (links_remove id) path e = link_id id [] path e
link-At (links_check id) path e = link_id id (text "/check") path e
link-At (links_create _) path e = fixed_path _ path false refl e
link-At (links_bulk _) path e = fixed_path _ path false refl e
link-At (links_update id _) path e = link_id id [] path e
link-At (links_import _) path e = fixed_path _ path false refl e
link-At (audit_list _ _ _) path e = fixed_path _ path false refl e

admin-At : (a : AdminCall) → At (admin_endpoint a) false
unfolding admin_endpoint includes
admin-At users_list path e = fixed_path _ path false refl e
admin-At roles_list path e = fixed_path _ path false refl e
admin-At (users_update id _) path e =
    resource_path (text "/api/v1/users/") id [] path (λ rest. refl) e
admin-At (users_reset_mfa id) path e =
    resource_path (text "/api/v1/users/") id (text "/2fa/reset") path (λ rest. refl) e
admin-At (roles_update name _) path e =
    resource_path (text "/api/v1/roles/") name [] path (λ rest. refl) e
admin-At oidc_public_providers path e = fixed_path _ path false refl e
admin-At oidc_list path e = fixed_path _ path false refl e
admin-At (oidc_create _) path e = fixed_path _ path false refl e
admin-At (oidc_update id _) path e =
    resource_path (text "/api/v1/oidc/providers/") id [] path (λ rest. refl) e
admin-At (oidc_remove id) path e =
    resource_path (text "/api/v1/oidc/providers/") id [] path (λ rest. refl) e
admin-At captcha_public path e = fixed_path _ path false refl e
admin-At captcha_get path e = fixed_path _ path false refl e
admin-At analytics_get path e = fixed_path _ path false refl e
admin-At runtime_get path e = fixed_path _ path false refl e
admin-At (captcha_update _) path e = fixed_path _ path false refl e
admin-At (analytics_update _) path e = fixed_path _ path false refl e
admin-At (runtime_update _) path e = fixed_path _ path false refl e
admin-At (runtime_patch _ _) path e = fixed_path _ path false refl e

stats-At : (s : StatsCall) → At (stats_endpoint s) false
unfolding stats_endpoint includes
stats-At tags_list path e = fixed_path _ path false refl e
stats-At config path e = fixed_path _ path false refl e
stats-At stats_summary path e = fixed_path _ path false refl e
stats-At (stats_top _ _ _) path e = fixed_path _ path false refl e
stats-At (stats_overview _) path e = fixed_path _ path false refl e
stats-At (stats_link id range) path e = link_id id _ path e
stats-At (stats_link_clicks id range _ _) path e = link_id id _ path e

endpoint-At : (a : ApiCall) → At (endpoint a) (makes_session a)
endpoint-At (account a) = account-At a
endpoint-At (link l) = link-At l
endpoint-At (admin a) = admin-At a
endpoint-At (stats s) = stats-At s

module _ {W : Type 0} (case : CaseMapping) (serve : W → HttpRequest → Reply × W) where
  -- Whatever ids, filters and inputs an endpoint is called with, its method is a mutation
  -- exactly if the call is no read, and its path is one of those that need no session exactly if
  -- the call is a login, a registration or the verification of a second factor: every other
  -- write needs a CSRF token.
  pub endpoint_protected :
      (a : ApiCall) (path : Text)
      → (endpoint a).path ≡ some path
      → (is_mutation case serve (endpoint a).options.method ≡ not (only_reads a))
        × (includes pre_session_paths path ≡ makes_session a)
  endpoint_protected a path e = (endpoint-IsWrite case serve a, endpoint-At a path e)

  -- An id that cannot be encoded is an error before any request.
  pub call_unencodable :
      (base : Text) (e : Endpoint) (c : Client W)
      → e.path ≡ none
      → call case serve base e c ≡ (thrown, c)
  unfolding call
  call_unencodable base e c h = rw h

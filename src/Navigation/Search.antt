-- ===== src/Navigation/Search.antt =====
-- web/src/components/admin-navigation.ts: the entries of the settings search.
use purels.Base.{List, Option, String, [], filter, if◌then◌else◌, none, some, ◌++◌, ◌∷◌}
use purels.Js.Text.{Text, includes, same, text}

-- Keywords that are left out are the empty text.
pub record SettingsSearchEntry : Type 0 where
  pub href : Text
  pub label_key : Text
  pub category_key : Text
  pub context_key : Option Text
  pub scope : Text
  pub keywords : Text

abbrev pub plain_entry : String → String → String → String → String → SettingsSearchEntry
plain_entry href label category scope keywords = record {
  href = text href;
  label_key = text label;
  category_key = text category;
  context_key = none;
  scope = text scope;
  keywords = text keywords;
}

abbrev link_context : Text → Text
link_context page =
    if same page (text "/maintenance")
    then text "settings.nav.maintenance"
    else if same page (text "/redirects")
    then text "settings.nav.redirects"
    else text "settings.nav.creation"

-- `linkSearch`.
unfoldable pub link_search : String → String → String → SettingsSearchEntry
unfolding same
link_search name label page = record {
  href = text "/home/settings/links" ++ (text page ++ (text "#" ++ text name));
  label_key = text label;
  category_key = text "settings.nav.links";
  context_key = some (link_context (text page));
  scope = text "settings:manage";
  keywords = text name;
}

-- `trafficSearch`.
unfoldable pub traffic_search : String → String → SettingsSearchEntry
traffic_search name label = record {
  href = text "/home/settings/traffic#" ++ text name;
  label_key = text label;
  category_key = text "settings.nav.traffic";
  context_key = some (text "settings.runtime.rateTitle");
  scope = text "settings:manage";
  keywords = text name;
}

unfoldable pub settings_search_entries : List SettingsSearchEntry
unfolding link_search traffic_search
settings_search_entries =
    link_search "alias_mode" "settings.runtime.aliasMode" ""
    ∷ link_search "unique_urls" "settings.runtime.uniqueUrls" ""
    ∷ link_search "max_links_per_user" "settings.runtime.maxLinks" ""
    ∷ link_search "short_domains" "settings.runtime.shortDomains" ""
    ∷ link_search "forward_query" "settings.runtime.forwardQuery" "/redirects"
    ∷ link_search "fallback_url" "settings.runtime.fallbackUrl" "/redirects"
    ∷ link_search "destination_denylist" "settings.runtime.denylist" "/redirects"
    ∷ link_search "health_check_enabled" "settings.runtime.healthCheck" "/maintenance"
    ∷ link_search "health_check_interval_seconds" "settings.runtime.healthInterval" "/maintenance"
    ∷ link_search "auto_prune_expired" "settings.runtime.autoPrune" "/maintenance"
    ∷ link_search "prune_grace_seconds" "settings.runtime.pruneGrace" "/maintenance"
    ∷ plain_entry "/home/settings/registration#registration_enabled" "settings.runtime.registration"
        "settings.nav.registration" "settings:manage" "registration_enabled"
    ∷ plain_entry "/home/settings/registration#totp_enabled" "settings.runtime.totpEnabled"
        "settings.nav.registration" "settings:manage" "totp_enabled TOTP 2FA two-factor"
    ∷ plain_entry "/home/settings/registration#captcha" "settings.captcha.title"
        "settings.nav.registration" "captcha:manage" "Turnstile CAPTCHA"
    ∷ plain_entry "/home/settings/registration#captcha" "settings.captcha.siteKey"
        "settings.nav.registration" "captcha:manage" "Turnstile CAPTCHA"
    ∷ plain_entry "/home/settings/registration#captcha" "settings.captcha.secretKey"
        "settings.nav.registration" "captcha:manage" "Turnstile CAPTCHA"
    ∷ plain_entry "/home/settings/registration#captcha" "settings.captcha.expectedHostname"
        "settings.nav.registration" "captcha:manage" "Turnstile CAPTCHA"
    ∷ plain_entry "/home/settings/registration#captcha" "settings.captcha.expectedAction"
        "settings.nav.registration" "captcha:manage" "Turnstile CAPTCHA"
    ∷ plain_entry "/home/settings/oidc" "settings.nav.thirdParty" "settings.nav.registration"
        "oidc:manage" "OIDC SSO"
    ∷ plain_entry "/home/settings/oidc" "settings.oidc.callback" "settings.nav.registration"
        "oidc:manage" "OIDC"
    ∷ plain_entry "/home/settings/oidc" "settings.oidc.autoProvision" "settings.nav.registration"
        "oidc:manage" "OIDC"
    ∷ plain_entry "/home/users" "users.title" "settings.nav.access" "users:manage" ""
    ∷ plain_entry "/home/settings/roles" "settings.roles.title" "settings.nav.access" "roles:manage"
        ""
    ∷ traffic_search "rate_limit_enabled" "settings.runtime.rateEnabled"
    ∷ traffic_search "rate_limit_login" "settings.runtime.rateLogin"
    ∷ traffic_search "rate_limit_register" "settings.runtime.rateRegister"
    ∷ traffic_search "rate_limit_2fa" "settings.runtime.rate2fa"
    ∷ traffic_search "rate_limit_oidc" "settings.runtime.rateOidc"
    ∷ traffic_search "rate_limit_api" "settings.runtime.rateApi"
    ∷ traffic_search "rate_limit_redirect" "settings.runtime.rateRedirect"
    ∷ plain_entry "/home/settings/analytics#count_bots" "settings.runtime.countBots"
        "settings.nav.analytics" "settings:manage" "count_bots"
    ∷ plain_entry "/home/settings/analytics#integrations" "settings.analytics.ga4"
        "settings.nav.analytics" "analytics:manage" ""
    ∷ plain_entry "/home/settings/analytics#integrations" "settings.analytics.gtm"
        "settings.nav.analytics" "analytics:manage" ""
    ∷ plain_entry "/home/settings/analytics#integrations" "settings.analytics.googleTag"
        "settings.nav.analytics" "analytics:manage" ""
    ∷ plain_entry "/home/settings/analytics#integrations" "settings.analytics.matomoUrl"
        "settings.nav.analytics" "analytics:manage" ""
    ∷ plain_entry "/home/settings/analytics#integrations" "settings.analytics.matomoSiteId"
        "settings.nav.analytics" "analytics:manage" ""
    ∷ plain_entry "/home/settings/analytics#integrations" "settings.analytics.clarity"
        "settings.nav.analytics" "analytics:manage" ""
    ∷ []

-- `getVisibleSettingsSearchEntries`.
unfoldable pub get_visible_settings_search_entries : List Text → List SettingsSearchEntry
unfolding settings_search_entries includes
get_visible_settings_search_entries scopes =
    filter (λ entry. includes scopes entry.scope) settings_search_entries

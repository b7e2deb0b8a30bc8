-- ===== src/Tests/Console.antt =====
-- The navigation, the server's reads, the OIDC callback and the endpoints at concrete inputs.
use purels.Analytics.Config.{AnalyticsConfig}
use purels.Analytics.Safety.{IsSafe}
use purels.Analytics.Validation.{IsParsed}
use purels.ApiClient.Request.{HttpRequest, Reply, replied}
use purels.Base.{
  All, List, [], false, length, none, refl, some, true, ◌||◌, ◌↔◌, ◌∷◌, ◌≡◌, ◌≤◌, ◌⊎◌,
}
use purels.Js.Case.{ascii_mapping}
use purels.Js.Headers.{Entries}
use purels.Js.Json.{Value, bool, end, field, obj}
use purels.Js.Text.{Text, is_empty, text}
use purels.Js.Text.Equality.{In}
use purels.Navigation.{is_nav_item_active}
use purels.Navigation.Active.{active_items, active_items_bound}
use purels.Navigation.Entries.{get_visible_navigation}
use purels.Navigation.Permitted.{IsShown, get_visible_navigation-IsShown, hrefs}
use purels.Navigation.Reachable.{Shows, search-Shows}
use purels.Navigation.Search.{get_visible_settings_search_entries}
use purels.Navigation.Visible.{FillsGroups, nav_items}
use purels.OidcCallback.{build_oidc_callback_url, callback_base, callback_slug}
use purels.OidcCallback.Segments.{IsCallback, build_oidc_callback_url-IsCallback}
use purels.Server.Origin.{request_origin}
use purels.Server.Origin.Safety.{IsOrigin, request_origin-IsSafe}
use purels.Server.Reads.{
  Answered, IsClosing, analytics_request, captcha_request, public_analytics_config,
  registration_enabled, session_cookie,
}
use purels.Server.Reads.Defaults.{public_analytics_config_iff, registration_enabled_iff}

abbrev role_keeper : List Text
role_keeper = text "roles:manage" ∷ []

get_visible_navigation-IsShown_example :
    (In (text "/home/settings/roles") (hrefs (nav_items (get_visible_navigation role_keeper)))
      ↔ IsShown role_keeper (text "/home/settings/roles"))
    × All FillsGroups (get_visible_navigation role_keeper)
get_visible_navigation-IsShown_example =
    get_visible_navigation-IsShown role_keeper (text "/home/settings/roles")

active_items_bound_example :
    length (
      active_items
        (text "/home/settings/roles/edit")
        (nav_items (get_visible_navigation role_keeper)))
    ≤ 1
active_items_bound_example = active_items_bound role_keeper (text "/home/settings/roles/edit")

one_active :
    length (
      active_items
        (text "/home/settings/roles/edit")
        (nav_items (get_visible_navigation role_keeper)))
    ≡ 1
unfolding get_visible_navigation is_nav_item_active
one_active = refl

search-Shows_example :
    All
      (λ e. Shows e.category_key (nav_items (get_visible_navigation role_keeper)))
      (get_visible_settings_search_entries role_keeper)
search-Shows_example = search-Shows role_keeper

abbrev forwarded : Entries
forwarded =
    (text "x-forwarded-host", text "links.example.com, proxy")
    ∷ (text "x-forwarded-proto", text "https")
    ∷ []

request_origin_run : request_origin forwarded ≡ text "https://links.example.com"
unfolding request_origin
request_origin_run = refl

request_origin-IsSafe_example :
    IsOrigin (request_origin forwarded) × All IsSafe (request_origin forwarded)
request_origin-IsSafe_example = request_origin-IsSafe forwarded

abbrev closed_server : HttpRequest → Reply
closed_server q = replied (record {
  status = 200;
  content_type = some (text "application/json");
  parsed = some (obj (field (text "registration_enabled") (bool false) end));
  body_text = none;
})

abbrev jar : Entries
jar = (session_cookie, text "abc") ∷ []

registration_enabled_iff_example : (registration_enabled closed_server [] ≡ false) ↔ (
    (v : Value) × Answered closed_server [] (captcha_request closed_server []) v
    × IsClosing closed_server [] v)
registration_enabled_iff_example = registration_enabled_iff closed_server []

abbrev blank_config : AnalyticsConfig
blank_config = record {
  ga4_measurement_id = [];
  gtm_container_id = [];
  google_tag_id = [];
  matomo_url = [];
  matomo_site_id = [];
  clarity_project_id = text "abcdef";
}

public_analytics_config_iff_example :
    (public_analytics_config closed_server [] ≡ some blank_config) ↔ (
      (v : Value) × Answered closed_server [] (analytics_request closed_server []) v
      × IsParsed v blank_config)
public_analytics_config_iff_example = public_analytics_config_iff closed_server [] blank_config

abbrev callback_url : Text
callback_url = text "https://s.example/api/v1/auth/oidc/a%2Fb/callback"

callback_run :
    build_oidc_callback_url ascii_mapping (text "https://s.example/") (text " A/b ")
    ≡ some callback_url
unfolding build_oidc_callback_url
callback_run = refl

build_oidc_callback_url-IsCallback_example :
    ((is_empty (callback_base (text "https://s.example/"))
          || is_empty (callback_slug ascii_mapping (text " A/b "))
        ≡ true)
      × (callback_url ≡ []))
    ⊎ IsCallback ascii_mapping (text "https://s.example/") (text " A/b ") callback_url
build_oidc_callback_url-IsCallback_example =
    build_oidc_callback_url-IsCallback ascii_mapping (text "https://s.example/") (text " A/b ")
      callback_url callback_run

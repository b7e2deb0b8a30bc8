-- ===== src/Tests/Pages.antt =====
-- Analytics configurations and the scripts of a page at concrete inputs.
use purels.Analytics.Config.{
  AnalyticsConfig, AnalyticsInput, check_config, is_configured, normalize_input,
  parse_analytics_config, validate_analytics_input,
}
use purels.Analytics.FormCheck.{validate_analytics_input-check_config}
use purels.Analytics.Inertness.{NoMarkup, analytics_injector-NoMarkup}
use purels.Analytics.Injector.Pageviews.{
  Call, Reports, Window, route_pageviews, route_pageviews-Reports,
}
use purels.Analytics.Injector.Snippets.{analytics_injector}
use purels.Analytics.Safety.{HasSafeFields, parse_analytics_config-HasSafeFields}
use purels.Analytics.Script.{json_for_script}
use purels.Analytics.Script.Decoding.{All-json_for_script, IsInert, decode-json_for_script}
use purels.Analytics.Validation.{IsParsed, parse_analytics_config_iff}
use purels.Base.{All, List, [], arith, false, none, refl, some, true, ◌↔◌, ◌∷◌, ◌≡◌}
use purels.Js.Case.{ascii_mapping}
use purels.Js.Json.{Value, end, field, obj, str}
use purels.Js.Json.Literal.{decode}
use purels.Js.Text.{Text, text}

abbrev payload : Value
payload = obj (
    field (text "ga4_measurement_id") (str (text " G-AB12CD34 ")) (
      field (text "matomo_url") (str (text "https://m.example.com/"))
        (field (text "matomo_site_id") (str (text "7")) end)))

abbrev parsed_config : AnalyticsConfig
parsed_config = record {
  ga4_measurement_id = text "G-AB12CD34";
  gtm_container_id = [];
  google_tag_id = [];
  matomo_url = text "https://m.example.com";
  matomo_site_id = text "7";
  clarity_project_id = [];
}

parse_run : parse_analytics_config payload ≡ some parsed_config
unfolding parse_analytics_config
parse_run = refl

parse_analytics_config_iff_example :
    (parse_analytics_config payload ≡ some parsed_config) ↔ IsParsed payload parsed_config
parse_analytics_config_iff_example = parse_analytics_config_iff payload parsed_config

parse_analytics_config-HasSafeFields_example : HasSafeFields parsed_config
parse_analytics_config-HasSafeFields_example =
    parse_analytics_config-HasSafeFields payload parsed_config parse_run

analytics_injector-NoMarkup_example :
    All (λ e. NoMarkup e.html) (analytics_injector (some parsed_config))
analytics_injector-NoMarkup_example = analytics_injector-NoMarkup (some parsed_config)

abbrev closing_tag : Text
closing_tag = text "</script>"

decode-json_for_script_example : decode (json_for_script closing_tag) ≡ some closing_tag
decode-json_for_script_example = decode-json_for_script closing_tag (omega arith)

All-json_for_script_example : All IsInert (json_for_script closing_tag)
All-json_for_script_example = All-json_for_script closing_tag

abbrev page : Window
page = record {
  has_gtag = true;
  has_paq = false;
  pathname = text "/links";
  search = [];
  href = text "https://example.com/links";
  title = text "Links";
}

abbrev visits : List (Window × Text)
visits = (page, text "/links") ∷ (page, text "/links") ∷ []

route_pageviews-Reports_example :
    (calls : List (List Call)) × (route_pageviews parsed_config page (text "/") visits ≡ [] ∷ calls)
    × Reports parsed_config (text "/") visits calls
route_pageviews-Reports_example = route_pageviews-Reports parsed_config page (text "/") visits

abbrev entered : AnalyticsInput
entered = record {
  ga4_measurement_id = text " g-ab12cd34";
  gtm_container_id = [];
  google_tag_id = [];
  matomo_url = text "HTTPS://m.example.com/";
  matomo_site_id = text "7";
  clarity_project_id = [];
}

entered_passes : validate_analytics_input ascii_mapping entered ≡ none
unfolding validate_analytics_input
entered_passes = refl

entered_paired :
    (normalize_input ascii_mapping entered).matomo_url ≡ []
    → (normalize_input ascii_mapping entered).matomo_site_id ≡ []
unfolding normalize_input
entered_paired h = cc (h)

entered_configured : is_configured (normalize_input ascii_mapping entered) ≡ true
unfolding is_configured normalize_input
entered_configured = refl

validate_analytics_input-check_config_example :
    check_config (normalize_input ascii_mapping entered)
    ≡ some (normalize_input ascii_mapping entered)
validate_analytics_input-check_config_example =
    validate_analytics_input-check_config ascii_mapping entered entered_passes entered_paired
      entered_configured

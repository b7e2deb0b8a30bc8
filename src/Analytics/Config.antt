-- ===== src/Analytics/Config.antt =====
-- `parseAnalyticsConfig` and `validateAnalyticsInput`.
use mathlib.Core.Option
use purels.Analytics.Patterns.{
  acceptable, clarity_pattern, ga4_pattern, google_tag_pattern, gtm_pattern, matomo_site_pattern,
  matomo_url_pattern, max_id_length, max_url_length,
}
use purels.Base.{Bool, Option, [], if◌then◌else◌, none, not, some, ◌&&◌, ◌++◌, ◌∷◌}
use purels.Js.Case.{CaseMapping}
use purels.Js.Json.{Fields, Value, arr, end, get, obj, str}
use purels.Js.Text.{Text, drop_slashes, is_empty, starts_with, text, trim}

pub record AnalyticsConfig : Type 0 where
  pub ga4_measurement_id : Text
  pub gtm_container_id : Text
  pub google_tag_id : Text
  pub matomo_url : Text
  pub matomo_site_id : Text
  pub clarity_project_id : Text

-- The form's fields: `AnalyticsInput` of api-client.ts.
pub record AnalyticsInput : Type 0 where
  pub ga4_measurement_id : Text
  pub gtm_container_id : Text
  pub google_tag_id : Text
  pub matomo_url : Text
  pub matomo_site_id : Text
  pub clarity_project_id : Text

unfoldable pub trimmed : Value → Text
unfolding trim
trimmed (str s) = trim s
trimmed _ = []

-- What `parseAnalyticsConfig` reads, before any check.
unfoldable pub read_config : Fields → AnalyticsConfig
unfolding trimmed drop_slashes get
read_config raw = record {
  ga4_measurement_id = trimmed (get raw (text "ga4_measurement_id"));
  gtm_container_id = trimmed (get raw (text "gtm_container_id"));
  google_tag_id = trimmed (get raw (text "google_tag_id"));
  matomo_url = drop_slashes (trimmed (get raw (text "matomo_url")));
  matomo_site_id = trimmed (get raw (text "matomo_site_id"));
  clarity_project_id = trimmed (get raw (text "clarity_project_id"));
}

unfoldable pub is_configured : AnalyticsConfig → Bool
is_configured c = not (
    is_empty c.ga4_measurement_id
    && is_empty c.gtm_container_id
    && is_empty c.google_tag_id
    && is_empty c.matomo_url
    && is_empty c.clarity_project_id)

-- `a !== b` on Booleans.
abbrev pub bool_ne : Bool → Bool → Bool
bool_ne a b = if a then not b else b

-- The checks of `parseAnalyticsConfig`, in its order; each failure returns null.
unfoldable pub check_config : AnalyticsConfig → Option AnalyticsConfig
unfolding acceptable is_configured
check_config c =
    if not (acceptable c.ga4_measurement_id ga4_pattern max_id_length)
    then none
    else if not (acceptable c.gtm_container_id gtm_pattern max_id_length)
    then none
    else if not (acceptable c.google_tag_id google_tag_pattern max_id_length)
    then none
    else if not (acceptable c.matomo_url matomo_url_pattern max_url_length)
    then none
    else if not (acceptable c.matomo_site_id matomo_site_pattern max_id_length)
    then none
    else if not (acceptable c.clarity_project_id clarity_pattern max_id_length)
    then none
    else if bool_ne (is_empty c.matomo_url) (is_empty c.matomo_site_id)
    then none
    else if not (is_configured c)
    then none
    else some c

unfoldable pub parse_analytics_config : Value → Option AnalyticsConfig
unfolding check_config read_config
parse_analytics_config (obj raw) = check_config (read_config raw)
-- An array is an object without these properties.
parse_analytics_config (arr _) = check_config (read_config end)
parse_analytics_config _ = none

-- The keys that name a bad field.
pub data InvalidField : Type 0 where
  invalid_ga4 invalid_gtm invalid_google_tag invalid_matomo_url : InvalidField
  missing_matomo_site_id invalid_matomo_site_id invalid_clarity : InvalidField

-- `(value.slice(0, i), value.slice(i))` for `i = value.indexOf("://")`.
unfoldable pub split_scheme : Text → Option (Text × Text)
unfolding starts_with
split_scheme [] = none
split_scheme (c ∷ cs) =
    if starts_with (text "://") (c ∷ cs)
    then some ([], c ∷ cs)
    else Option.map (λ (p : Text × Text). (c ∷ p.0, p.1)) (split_scheme cs)

-- An index of 0 or -1 leaves the value alone.
abbrev fold_at : CaseMapping → Text → Option (Text × Text) → Text
fold_at case value none = value
fold_at case value (some ([], rest)) = value
fold_at case value (some (c ∷ scheme, rest)) = case.to_lower (c ∷ scheme) ++ rest

unfoldable pub fold_scheme : CaseMapping → Text → Text
unfolding split_scheme
fold_scheme case value = fold_at case value (split_scheme value)

-- The values that the form's checks see.
unfoldable pub normalize_input : CaseMapping → AnalyticsInput → AnalyticsConfig
unfolding trim fold_scheme drop_slashes
normalize_input case input = record {
  ga4_measurement_id = case.to_upper (trim input.ga4_measurement_id);
  gtm_container_id = case.to_upper (trim input.gtm_container_id);
  google_tag_id = case.to_upper (trim input.google_tag_id);
  matomo_url = drop_slashes (fold_scheme case (trim input.matomo_url));
  matomo_site_id = trim input.matomo_site_id;
  clarity_project_id = case.to_lower (trim input.clarity_project_id);
}

unfoldable pub check_input : AnalyticsConfig → Option InvalidField
unfolding acceptable
check_input c =
    if not (acceptable c.ga4_measurement_id ga4_pattern max_id_length)
    then some invalid_ga4
    else if not (acceptable c.gtm_container_id gtm_pattern max_id_length)
    then some invalid_gtm
    else if not (acceptable c.google_tag_id google_tag_pattern max_id_length)
    then some invalid_google_tag
    else if not (acceptable c.matomo_url matomo_url_pattern max_url_length)
    then some invalid_matomo_url
    else if not (is_empty c.matomo_url) && is_empty c.matomo_site_id
    then some missing_matomo_site_id
    else if not (is_empty c.matomo_site_id)
        && not (acceptable c.matomo_site_id matomo_site_pattern max_id_length)
    then some invalid_matomo_site_id
    else if not (acceptable c.clarity_project_id clarity_pattern max_id_length)
    then some invalid_clarity
    else none

unfoldable pub validate_analytics_input : CaseMapping → AnalyticsInput → Option InvalidField
unfolding check_input normalize_input
validate_analytics_input case input = check_input (normalize_input case input)

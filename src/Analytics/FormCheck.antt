-- ===== src/Analytics/FormCheck.antt =====
-- What the form's check lets through, and how that compares with the reader's check.
use purels.Analytics.Config.{
  AnalyticsConfig, AnalyticsInput, check_config, check_input, invalid_clarity, invalid_ga4,
  invalid_google_tag, invalid_gtm, invalid_matomo_site_id, invalid_matomo_url, is_configured,
  missing_matomo_site_id, normalize_input, validate_analytics_input,
}
use purels.Analytics.Patterns.{
  acceptable, clarity_pattern, ga4_pattern, google_tag_pattern, gtm_pattern, matomo_site_pattern,
  matomo_url_pattern, max_id_length, max_url_length,
}
use purels.Analytics.Validation.{HasValidIds, check_config_complete, ids_ok, ids_ok_iff}
use purels.Base.{Bool, [], arith, false, if◌then◌else◌, none, not, some, true, ℕ, ◌&&◌, ◌↔◌, ◌≡◌}
use purels.Js.Case.{CaseMapping}
use purels.Js.Regex.{Regex}
use purels.Js.Text.{Text, is_empty}
use purels.Js.Text.Equality.{is_empty_iff}

form_ladder :
    (a b d e p q f g : Bool)
    → (q ≡ true → f ≡ true)
    → ((if not a
          then some invalid_ga4
          else if not b
          then some invalid_gtm
          else if not d
          then some invalid_google_tag
          else if not e
          then some invalid_matomo_url
          else if not p && q
          then some missing_matomo_site_id
          else if not q && not f
          then some invalid_matomo_site_id
          else if not g
          then some invalid_clarity
          else none)
        ≡ none)
      ↔ (((a && (b && (d && (e && (f && g))))) ≡ true) × (q ≡ true → p ≡ true))
form_ladder true true true true p q f g k = ground arith
form_ladder true true true false p q f g k = ground arith
form_ladder true true false e p q f g k = ground arith
form_ladder true false d e p q f g k = ground arith
form_ladder false b d e p q f g k = ground arith

acceptable_nil : (r : Regex) (n : ℕ) (s : Text) → is_empty s ≡ true → acceptable s r n ≡ true
unfolding acceptable
acceptable_nil r n s h = rw h

check_input-none :
    (c : AnalyticsConfig)
    → (check_input c ≡ none)
      ↔ ((ids_ok c ≡ true) × (is_empty c.matomo_site_id ≡ true → is_empty c.matomo_url ≡ true))
unfolding check_input
check_input-none c =
    form_ladder (acceptable c.ga4_measurement_id ga4_pattern max_id_length)
      (acceptable c.gtm_container_id gtm_pattern max_id_length)
      (acceptable c.google_tag_id google_tag_pattern max_id_length)
      (acceptable c.matomo_url matomo_url_pattern max_url_length) (is_empty c.matomo_url)
      (is_empty c.matomo_site_id) (acceptable c.matomo_site_id matomo_site_pattern max_id_length)
      (acceptable c.clarity_project_id clarity_pattern max_id_length)
      (acceptable_nil matomo_site_pattern max_id_length c.matomo_site_id)

-- What the form lets through, field by field.
pub check_input_iff :
    (c : AnalyticsConfig)
    → (check_input c ≡ none) ↔ (HasValidIds c × (c.matomo_site_id ≡ [] → c.matomo_url ≡ []))
check_input_iff c = (
  λ h.
      let (ids, pair) = (check_input-none c).0 h in
      (
        (ids_ok_iff c).0 ids,
        λ e. (is_empty_iff c.matomo_url).0 (pair ((is_empty_iff c.matomo_site_id).1 e)),
      ),
  λ h. (check_input-none c).1 (
    (ids_ok_iff c).1 h.0,
    λ e. (is_empty_iff c.matomo_url).1 (h.1 ((is_empty_iff c.matomo_site_id).0 e)),
  ),
)

validate_lem :
    (case : CaseMapping) (input : AnalyticsInput)
    → validate_analytics_input case input ≡ none
    → check_input (normalize_input case input) ≡ none
unfolding validate_analytics_input
validate_lem case input h = h

-- An input that the form accepts is, once normalised, a configuration that the pages accept, if
-- it has no site id without a Matomo URL and some provider is configured.
pub validate_analytics_input-check_config :
    (case : CaseMapping) (input : AnalyticsInput)
    → validate_analytics_input case input ≡ none
    → ((normalize_input case input).matomo_url ≡ []
        → (normalize_input case input).matomo_site_id ≡ [])
    → is_configured (normalize_input case input) ≡ true
    → check_config (normalize_input case input) ≡ some (normalize_input case input)
validate_analytics_input-check_config case input h pair on =
    let (ids, other) =
      (check_input_iff (normalize_input case input)).0 (validate_lem case input h) in
    check_config_complete (normalize_input case input)
      (record { ids = ids; matomo_pair = (pair, other); configured = on })

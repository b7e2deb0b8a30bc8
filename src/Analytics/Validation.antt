-- ===== src/Analytics/Validation.antt =====
-- Which configurations pass the checks of the reader and of the form.
use purels.Analytics.Config.{
  AnalyticsConfig, bool_ne, check_config, is_configured, parse_analytics_config, read_config,
}
use purels.Analytics.Patterns.{
  acceptable, clarity_pattern, ga4_pattern, google_tag_pattern, gtm_pattern, matomo_site_pattern,
  matomo_url_pattern, max_id_length, max_url_length,
}
use purels.Base.{
  &&_true, Bool, Bool-cases, [], ap, arith, false, if◌then◌else◌, inl, inr, length, none, not,
  not-true, refl, some, sym, true, ℕ, ◌&&◌, ◌↔◌, ◌∙◌, ◌≡◌, ◌≢◌, ◌≤◌, ◌⊎◌,
}
use purels.Js.Json.{Fields, Items, Value, arr, bool, end, null, num, obj, str, undefined}
use purels.Js.Regex.{Regex}
use purels.Js.Regex.Meaning.{Accepts, test_iff}
use purels.Js.Text.{Text, is_empty}
use purels.Js.Text.Equality.{is_empty_iff}

-- A field is off, or matches its pattern within its length.
abbrev pub IsAcceptable : Text → Regex → ℕ → Type 0
IsAcceptable s r n = (s ≡ []) ⊎ ((length s ≤ n) × Accepts r s)

pub acceptable_iff : (s : Text) (r : Regex) (n : ℕ) → (acceptable s r n ≡ true) ↔ IsAcceptable s r n
unfolding acceptable
acceptable_iff s r n = ground (arith, is_empty_iff s, test_iff r s)

pub record HasValidIds (c : AnalyticsConfig) : Type 0 where
  pub ga4 : IsAcceptable c.ga4_measurement_id ga4_pattern max_id_length
  pub gtm : IsAcceptable c.gtm_container_id gtm_pattern max_id_length
  pub google_tag : IsAcceptable c.google_tag_id google_tag_pattern max_id_length
  pub matomo_url : IsAcceptable c.matomo_url matomo_url_pattern max_url_length
  pub matomo_site : IsAcceptable c.matomo_site_id matomo_site_pattern max_id_length
  pub clarity : IsAcceptable c.clarity_project_id clarity_pattern max_id_length

pub record IsValidConfig (c : AnalyticsConfig) : Type 0 where
  pub ids : HasValidIds c
  pub matomo_pair : (c.matomo_url ≡ []) ↔ (c.matomo_site_id ≡ [])
  pub configured : is_configured c ≡ true

abbrev pub ids_ok : AnalyticsConfig → Bool
ids_ok c =
    acceptable c.ga4_measurement_id ga4_pattern max_id_length
    && (acceptable c.gtm_container_id gtm_pattern max_id_length
        && (acceptable c.google_tag_id google_tag_pattern max_id_length
            && (acceptable c.matomo_url matomo_url_pattern max_url_length
                && (acceptable c.matomo_site_id matomo_site_pattern max_id_length
                    && acceptable c.clarity_project_id clarity_pattern max_id_length))))

-- The ladder of early returns as one conjunction, over the tests' values.
ladder :
    (a b d e f g p q : Bool) (c : AnalyticsConfig)
    → (if not a
        then none
        else if not b
        then none
        else if not d
        then none
        else if not e
        then none
        else if not f
        then none
        else if not g
        then none
        else if p
        then none
        else if not q
        then none
        else some c)
      ≡ (if (a && (b && (d && (e && (f && g))))) && (not p && q) then some c else none)
ladder true true true true true true true q c = refl
ladder true true true true true true false true c = refl
ladder true true true true true true false false c = refl
ladder true true true true true false p q c = refl
ladder true true true true false g p q c = refl
ladder true true true false f g p q c = refl
ladder true true false e f g p q c = refl
ladder true false d e f g p q c = refl
ladder false b d e f g p q c = refl

check_config_lem :
    (c : AnalyticsConfig)
    → check_config c ≡ (
        if ids_ok c
          && (not (bool_ne (is_empty c.matomo_url) (is_empty c.matomo_site_id)) && is_configured c)
        then some c
        else none)
unfolding check_config
check_config_lem c =
    ladder (acceptable c.ga4_measurement_id ga4_pattern max_id_length)
      (acceptable c.gtm_container_id gtm_pattern max_id_length)
      (acceptable c.google_tag_id google_tag_pattern max_id_length)
      (acceptable c.matomo_url matomo_url_pattern max_url_length)
      (acceptable c.matomo_site_id matomo_site_pattern max_id_length)
      (acceptable c.clarity_project_id clarity_pattern max_id_length)
      (bool_ne (is_empty c.matomo_url) (is_empty c.matomo_site_id)) (is_configured c) c

pub ids_ok_iff : (c : AnalyticsConfig) → (ids_ok c ≡ true) ↔ HasValidIds c
ids_ok_iff c = ground (
  arith,
  acceptable_iff c.ga4_measurement_id ga4_pattern max_id_length,
  acceptable_iff c.gtm_container_id gtm_pattern max_id_length,
  acceptable_iff c.google_tag_id google_tag_pattern max_id_length,
  acceptable_iff c.matomo_url matomo_url_pattern max_url_length,
  acceptable_iff c.matomo_site_id matomo_site_pattern max_id_length,
  acceptable_iff c.clarity_project_id clarity_pattern max_id_length,
)

matomo_pair_iff : (u s : Text) → (bool_ne (is_empty u) (is_empty s) ≡ false) ↔ ((u ≡ []) ↔ (s ≡ []))
matomo_pair_iff u s = ground (arith, is_empty_iff u, is_empty_iff s)

check_config_sound : (c d : AnalyticsConfig) → check_config c ≡ some d → (c ≡ d) × IsValidConfig c
check_config_sound c d h =
    elim (Bool-cases (
      ids_ok c
      && (not (bool_ne (is_empty c.matomo_url) (is_empty c.matomo_site_id)) && is_configured c))) [
        | inl e ↦ (
          cc (check_config_lem c, h, e),
          record {
            ids = (ids_ok_iff c).0 ((&&_true _ _).0 e).0;
            matomo_pair =
                (matomo_pair_iff c.matomo_url c.matomo_site_id).0
                  ((not-true _).0 ((&&_true _ _).0 ((&&_true _ _).0 e).1).0);
            configured = ((&&_true _ _).0 ((&&_true _ _).0 e).1).1;
          },
        )
        | inr e ↦ let no : none ≡ some d = sym (rw e at (check_config_lem c)) ∙ h in cc no
      ]

pub check_config_complete : (c : AnalyticsConfig) → IsValidConfig c → check_config c ≡ some c
check_config_complete c v =
    check_config_lem c
    ∙ rw (
      (ids_ok_iff c).1 v.ids,
      (matomo_pair_iff c.matomo_url c.matomo_site_id).1 v.matomo_pair,
      v.configured,
    )

pub check_config_iff :
    (c d : AnalyticsConfig) → (check_config c ≡ some d) ↔ ((c ≡ d) × IsValidConfig c)
check_config_iff c d = (check_config_sound c d, λ h. check_config_complete c h.1 ∙ ap some h.0)

-- A payload without any of the fields configures nothing.
check_config_end : (d : AnalyticsConfig) → check_config (read_config end) ≢ some d
unfolding check_config read_config
check_config_end d h = cc

parse_obj : (raw : Fields) → parse_analytics_config (obj raw) ≡ check_config (read_config raw)
unfolding parse_analytics_config
parse_obj raw = refl

parse_arr : (vs : Items) → parse_analytics_config (arr vs) ≡ check_config (read_config end)
unfolding parse_analytics_config
parse_arr vs = refl

parse_other :
    (payload : Value)
    → ((raw : Fields) × (payload ≡ obj raw))
      ⊎ ((vs : Items) × (payload ≡ arr vs))
      ⊎ (parse_analytics_config payload ≡ none)
unfolding parse_analytics_config
parse_other undefined = inr (inr refl)
parse_other null = inr (inr refl)
parse_other (bool b) = inr (inr refl)
parse_other (num n) = inr (inr refl)
parse_other (str s) = inr (inr refl)
parse_other (arr vs) = inr (inl (vs, refl))
parse_other (obj raw) = inl (raw, refl)

abbrev pub IsParsed : Value → AnalyticsConfig → Type 0
IsParsed payload d = (raw : Fields) × (payload ≡ obj raw) × (read_config raw ≡ d) × IsValidConfig d

parse_sound :
    (payload : Value) (d : AnalyticsConfig)
    → parse_analytics_config payload ≡ some d
    → IsParsed payload d
parse_sound payload d h = elim (parse_other payload) [
  | inl (raw, e) ↦
      let (same_config, valid) =
        (check_config_iff (read_config raw) d).0
          (sym (parse_obj raw) ∙ ap parse_analytics_config (sym e) ∙ h) in
      (raw, e, same_config, rw same_config at valid)
  | inr (inl (vs, e)) ↦
      absurd (check_config_end d (sym (parse_arr vs) ∙ ap parse_analytics_config (sym e) ∙ h))
  | inr (inr e) ↦ let no : none ≡ some d = sym e ∙ h in cc no
]

parse_complete :
    (payload : Value) (d : AnalyticsConfig)
    → IsParsed payload d
    → parse_analytics_config payload ≡ some d
parse_complete payload d (raw, e, same_config, valid) =
    ap parse_analytics_config e
    ∙ parse_obj raw
    ∙ ap check_config same_config
    ∙ check_config_complete d valid

-- A payload is accepted as a configuration exactly when it is an object whose trimmed fields,
-- the Matomo URL without its trailing slashes, are that configuration, each field is empty or
-- matches its pattern within its length, the Matomo URL and site id are both empty or both
-- present, and some provider is configured.
pub parse_analytics_config_iff :
    (payload : Value) (d : AnalyticsConfig)
    → (parse_analytics_config payload ≡ some d) ↔ IsParsed payload d
parse_analytics_config_iff payload d = (parse_sound payload d, parse_complete payload d)

-- ===== src/Analytics/Safety.antt =====
-- The characters that an accepted id or URL can hold.
use purels.Analytics.Config.{AnalyticsConfig, parse_analytics_config}
use purels.Analytics.Patterns.{
  clarity_pattern, ga4_pattern, google_tag_pattern, gtm_pattern, host_unit, is_digit,
  letter_or_digit, lower_or_digit, matomo_site_pattern, matomo_url_pattern, max_id_length,
  max_url_length, path_unit, upper_or_digit,
}
use purels.Analytics.Validation.{IsAcceptable, parse_analytics_config_iff}
use purels.Base.{
  &&_true, ==_iff, All, Bool, Bool-cases, [], arith, every, false, inl, inr, not, refl, some, true,
  within, ℕ, ◌==◌, ◌||◌, ◌∷◌, ◌≡◌, ◌≢◌, ◌≤◌,
}
use purels.Js.Json.{Value}
use purels.Js.Regex.{Regex, cls, lit}
use purels.Js.Regex.Meaning.{Accepts-All, IsCovered, IsCovered-rep, IsCovered-up_to}
use purels.Js.Text.{Text, includes_unit, is_space, text}

-- No quote, no angle bracket, no backslash or backtick, and no white space.
abbrev pub IsSafe : ℕ → Type 0
IsSafe c =
    (c ≢ b'<')
    × (c ≢ b'>')
    × (c ≢ b'"')
    × (c ≢ 39)
    × (c ≢ b'\\')
    × (c ≢ b'`')
    × (is_space c ≡ false)

letter_or_digit-IsSafe : (c : ℕ) → letter_or_digit c ≡ true → IsSafe c
unfolding is_space
letter_or_digit-IsSafe c h = ground arith

upper_or_digit-IsSafe : (c : ℕ) → upper_or_digit c ≡ true → IsSafe c
unfolding is_space
upper_or_digit-IsSafe c h = ground arith

lower_or_digit-IsSafe : (c : ℕ) → lower_or_digit c ≡ true → IsSafe c
unfolding is_space
lower_or_digit-IsSafe c h = ground arith

pub digit-IsSafe : (lo : ℕ) → b'0' ≤ lo → (c : ℕ) → within lo b'9' c ≡ true → IsSafe c
unfolding is_space
digit-IsSafe lo l c h = ground arith

pub host_unit-IsSafe : (c : ℕ) → host_unit c ≡ true → IsSafe c
unfolding is_space
host_unit-IsSafe c h = ground arith

abbrev pub safe_unit : ℕ → Bool
safe_unit c =
    not (c == b'<' || c == b'>' || c == b'"' || c == 39 || c == b'\\' || c == b'`' || is_space c)

pub safe_unit_sound : (c : ℕ) → safe_unit c ≡ true → IsSafe c
safe_unit_sound c h = ground arith

-- A unit that equals a safe one, or one of several, is safe.
pub unit-IsSafe : (d : ℕ) → safe_unit d ≡ true → (c : ℕ) → (c == d) ≡ true → IsSafe c
unit-IsSafe d h c e = safe_unit_sound c (rw ((==_iff c d).0 e) h)

includes_unit-IsSafe :
    (s : Text) (c : ℕ) → every safe_unit s ≡ true → includes_unit s c ≡ true → IsSafe c
includes_unit-IsSafe [] c h k = cc
includes_unit-IsSafe (d ∷ s) c h k = elim (Bool-cases (c == d)) [
  | inl e ↦ unit-IsSafe d ((&&_true _ _).0 h).0 c e
  | inr e ↦ includes_unit-IsSafe s c ((&&_true _ _).0 h).1 (rw e at k)
]

rest_of_or : (a b : Bool) → a ≡ false → (a || b) ≡ true → b ≡ true
rest_of_or a b e h = ground arith

path_unit-IsSafe : (c : ℕ) → path_unit c ≡ true → IsSafe c
path_unit-IsSafe c h = elim (Bool-cases (letter_or_digit c)) [
  | inl e ↦ letter_or_digit-IsSafe c e
  | inr e ↦
      includes_unit-IsSafe (text "._~!$&()*+,;=:@%/-") c (unfold is_space in refl)
        (rest_of_or _ _ e h)
]

abbrev pub IsSafeRegex : Regex → Type 0
IsSafeRegex r = IsCovered IsSafe r

lit-IsSafe : (s : Text) → every safe_unit s ≡ true → IsSafeRegex (lit s)
lit-IsSafe [] h = tt
lit-IsSafe (c ∷ s) h = (unit-IsSafe c ((&&_true _ _).0 h).0, lit-IsSafe s ((&&_true _ _).0 h).1)

ga4-IsSafe : IsSafeRegex ga4_pattern
ga4-IsSafe = (
  lit-IsSafe (text "G-") (unfold is_space in refl),
  IsCovered-rep IsSafe 4 16 (cls upper_or_digit) upper_or_digit-IsSafe,
)

gtm-IsSafe : IsSafeRegex gtm_pattern
gtm-IsSafe = (
  lit-IsSafe (text "GTM-") (unfold is_space in refl),
  IsCovered-rep IsSafe 4 8 (cls upper_or_digit) upper_or_digit-IsSafe,
)

google_tag-IsSafe : IsSafeRegex google_tag_pattern
google_tag-IsSafe = (
  lit-IsSafe (text "GT-") (unfold is_space in refl),
  IsCovered-rep IsSafe 4 16 (cls upper_or_digit) upper_or_digit-IsSafe,
)

matomo_url-IsSafe : IsSafeRegex matomo_url_pattern
matomo_url-IsSafe = (
  lit-IsSafe (text "http") (unfold is_space in refl),
  (
    (tt, unit-IsSafe b's' (unfold is_space in refl)),
    (
      lit-IsSafe (text "://") (unfold is_space in refl),
      (
        letter_or_digit-IsSafe,
        (
          (tt, (host_unit-IsSafe, letter_or_digit-IsSafe)),
          (
            (
              tt,
              (
                unit-IsSafe b':' (unfold is_space in refl),
                IsCovered-rep IsSafe 1 4 (cls is_digit) (digit-IsSafe b'0' (omega arith)),
              ),
            ),
            (tt, (unit-IsSafe b'/' (unfold is_space in refl), path_unit-IsSafe)),
          ),
        ),
      ),
    ),
  ),
)

matomo_site-IsSafe : IsSafeRegex matomo_site_pattern
matomo_site-IsSafe = (
  digit-IsSafe b'1' (omega arith),
  IsCovered-up_to IsSafe 9 (cls is_digit) (digit-IsSafe b'0' (omega arith)),
)

clarity-IsSafe : IsSafeRegex clarity_pattern
clarity-IsSafe = IsCovered-rep IsSafe 6 14 (cls lower_or_digit) lower_or_digit-IsSafe

IsAcceptable-IsSafe :
    (s : Text) (r : Regex) (n : ℕ) → IsSafeRegex r → IsAcceptable s r n → All IsSafe s
IsAcceptable-IsSafe s r n k (inl e) = rw e tt
IsAcceptable-IsSafe s r n k (inr (_, h)) = Accepts-All IsSafe h k

pub record HasSafeFields (c : AnalyticsConfig) : Type 0 where
  pub ga4 : All IsSafe c.ga4_measurement_id
  pub gtm : All IsSafe c.gtm_container_id
  pub google_tag : All IsSafe c.google_tag_id
  pub matomo_url : All IsSafe c.matomo_url
  pub matomo_site : All IsSafe c.matomo_site_id
  pub clarity : All IsSafe c.clarity_project_id

-- An accepted configuration has no quote, angle bracket, backslash, backtick or white space in
-- any of its fields.
pub parse_analytics_config-HasSafeFields :
    (payload : Value) (d : AnalyticsConfig)
    → parse_analytics_config payload ≡ some d
    → HasSafeFields d
parse_analytics_config-HasSafeFields payload d h =
    let (raw, e, same_config, valid) = (parse_analytics_config_iff payload d).0 h in
    let v = valid.ids in
    record {
      ga4 = IsAcceptable-IsSafe _ ga4_pattern max_id_length ga4-IsSafe v.ga4;
      gtm = IsAcceptable-IsSafe _ gtm_pattern max_id_length gtm-IsSafe v.gtm;
      google_tag =
          IsAcceptable-IsSafe _ google_tag_pattern max_id_length google_tag-IsSafe v.google_tag;
      matomo_url =
          IsAcceptable-IsSafe _ matomo_url_pattern max_url_length matomo_url-IsSafe v.matomo_url;
      matomo_site =
          IsAcceptable-IsSafe _ matomo_site_pattern max_id_length matomo_site-IsSafe v.matomo_site;
      clarity = IsAcceptable-IsSafe _ clarity_pattern max_id_length clarity-IsSafe v.clarity;
    }

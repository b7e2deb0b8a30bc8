-- ===== src/Server/Reads/Defaults.antt =====
-- When a read departs from its default.
use purels.Analytics.Config.{AnalyticsConfig}
use purels.Analytics.Validation.{IsParsed, parse_analytics_config_iff}
use purels.ApiClient.Request.{HttpRequest, Reply, is_ok, replied, unreachable}
use purels.Base.{Bool-cases, Option-cases, false, inl, inr, refl, some, true, ◌↔◌, ◌≡◌}
use purels.Js.Json.{Value, arr, bool, get, null, num, obj, str, undefined}
use purels.Js.Text.{Text, text}
use purels.Server.Reads.{
  Answered, IsClosing, analytics_request, captcha_request, config_by, is_not_false, is_open,
  public_analytics_config, registration_by, registration_enabled,
}

module _ (serve : HttpRequest → Reply) (target : Text) where
  is_open_inv : (v : Value) → is_open serve target v ≡ false → IsClosing serve target v
  is_open_inv undefined h = cc
  is_open_inv null h = cc
  is_open_inv (bool b) h = cc
  is_open_inv (num k) h = cc
  is_open_inv (str s) h = cc
  is_open_inv (arr vs) h = cc
  is_open_inv (obj fs) h = (fs, refl, closing (get fs (text "registration_enabled")) h)
    where
      closing : (v : Value) → is_not_false v ≡ false → v ≡ bool false
      closing undefined h = cc
      closing null h = cc
      closing (bool true) h = cc
      closing (bool false) h = refl
      closing (num k) h = cc
      closing (str s) h = cc
      closing (arr vs) h = cc
      closing (obj fs) h = cc

  abbrev Read : HttpRequest → (Value → Type 0) → Type 0
  Read q P = (v : Value) × Answered serve target q v × P v

  registration_inv :
      (reply : Reply)
      → serve (captcha_request serve target) ≡ reply
      → registration_by serve target reply ≡ false
      → Read (captcha_request serve target) (IsClosing serve target)
  registration_inv unreachable e h = cc
  registration_inv (replied r) e h = elim (Bool-cases (is_ok r)) [
    | inr bad ↦ cc (rw bad at h)
    | inl good ↦ elim (Option-cases r.parsed) [
      | inl none_read ↦ cc (rw (good, none_read) at h)
      | inr (v, parsed) ↦ (
        v,
        record { response = r; reply = e; good = good; json = parsed },
        is_open_inv v (rw (good, parsed) at h),
      )
    ]
  ]

  -- Registration is reported as closed exactly when the service answers with a 2xx reply whose
  -- JSON is an object with the field registration_enabled set to false; every failure reports it
  -- as open.
  pub registration_enabled_iff : (registration_enabled serve target ≡ false) ↔ (
      (v : Value) × Answered serve target (captcha_request serve target) v
      × IsClosing serve target v)
  unfolding registration_enabled
  registration_enabled_iff = (
    registration_inv (serve (captcha_request serve target)) refl,
    λ (h : Read (captcha_request serve target) (IsClosing serve target)).
        let (v, a, (fs, e, off)) = h in rw (a.reply, a.good, a.json, e, off),
  )

  config_inv :
      (reply : Reply) (c : AnalyticsConfig)
      → serve (analytics_request serve target) ≡ reply
      → config_by serve target reply ≡ some c
      → Read (analytics_request serve target) (λ v. IsParsed v c)
  config_inv unreachable c e h = cc
  config_inv (replied r) c e h = elim (Bool-cases (is_ok r)) [
    | inr bad ↦ cc (rw bad at h)
    | inl good ↦ elim (Option-cases r.parsed) [
      | inl none_read ↦ cc (rw (good, none_read) at h)
      | inr (v, parsed) ↦ (
        v,
        record { response = r; reply = e; good = good; json = parsed },
        (parse_analytics_config_iff v c).0 (rw (good, parsed) at h),
      )
    ]
  ]

  -- The pages get a configuration exactly when the service answers with a 2xx reply whose JSON
  -- is accepted as that configuration; every failure gives none.
  pub public_analytics_config_iff :
      (c : AnalyticsConfig)
      → (public_analytics_config serve target ≡ some c)
        ↔ ((v : Value) × Answered serve target (analytics_request serve target) v × IsParsed v c)
  unfolding public_analytics_config
  public_analytics_config_iff c = (
    config_inv (serve (analytics_request serve target)) c refl,
    λ (h : Read (analytics_request serve target) (λ v. IsParsed v c)).
        let (v, a, p) = h in rw (a.reply, a.good, a.json) ((parse_analytics_config_iff v c).1 p),
  )

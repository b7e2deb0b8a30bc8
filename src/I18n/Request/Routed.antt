-- ===== src/I18n/Request/Routed.antt =====
-- The locale of a request, whether or not the proxy runs for its path (config.matcher).
use purels.Base.{Bool-cases, Option, ap, arith, if◌then◌else◌, inl, inr, refl, some, true, ◌∙◌, ◌≡◌}
use purels.I18n.Locale.{Locale, en, zh_cn}
use purels.I18n.Request.{
  Matching, Request, chosen_locale, get_locale, is_routed, known, landing_header, or_else, routed,
}
use purels.I18n.Request.Landing.{get_locale-proxy, get_locale_lem, landing_locale}
use purels.Js.Case.{CaseMapping}
use purels.Js.Headers.{Entries, get_entry}
use purels.Js.Number.{Numbers}
use purels.Js.Text.{Text, same, text}

abbrev pub landing_path : Locale → Text
landing_path en = text "/i18n/en"
landing_path zh_cn = text "/i18n/zh-CN"

landing_path-is_routed : (m : Matching) (l : Locale) → is_routed m (landing_path l) ≡ true
landing_path-is_routed m en =
    rw (m.matches_segment (text "en") (refl, (refl, (refl, tt)))) (ground arith)
landing_path-is_routed m zh_cn =
    rw (m.matches_segment (text "zh-CN") (refl, (refl, (refl, (refl, (refl, (refl, tt)))))))
      (ground arith)

landing_locale_path : (l : Locale) → landing_locale (landing_path l) ≡ some l
unfolding same
landing_locale_path en = refl
landing_locale_path zh_cn = refl

-- The locale that a request names before any choice: where the proxy runs, that of its landing
-- path, and elsewhere that of the client's own landing header.
abbrev pub named_locale : Matching → Request → Option Locale
named_locale m r =
    if is_routed m r.pathname
    then landing_locale r.pathname
    else known (get_entry r.headers landing_header)

module _ (case : CaseMapping) (n : Numbers) (m : Matching) where
  get_locale-routed_lem :
      (r : Request) (cookies : Entries)
      → get_locale case n (routed m r).headers cookies
        ≡ or_else (named_locale m r) (chosen_locale case n r.headers cookies)
  unfolding routed
  get_locale-routed_lem r cookies = elim (Bool-cases (is_routed m r.pathname)) [
    | inl e ↦ rw e (get_locale-proxy case n r cookies)
    | inr e ↦ rw e (get_locale_lem case n r.headers cookies)
  ]

  -- On a path that the proxy's matcher selects, the locale of a request is that of its landing
  -- path if it has one, whatever landing header the client itself had sent; on any other path it
  -- is the one that the client's landing header names, if it names one; and otherwise it is what
  -- the cookie or the browser's languages choose. A request for a landing path always gets the
  -- language of that path, whatever its headers and cookies.
  pub get_locale-routed :
      (r : Request) (cookies : Entries)
      → (get_locale case n (routed m r).headers cookies
          ≡ or_else (named_locale m r) (chosen_locale case n r.headers cookies))
        × ((l : Locale)
            → r.pathname ≡ landing_path l
            → get_locale case n (routed m r).headers cookies ≡ l)
  get_locale-routed r cookies = (get_locale-routed_lem r cookies, λ l e. at_landing l e)
    where
      at_landing :
          (l : Locale)
          → r.pathname ≡ landing_path l
          → get_locale case n (routed m r).headers cookies ≡ l
      at_landing l e =
          get_locale-routed_lem r cookies
          ∙ ap
              (λ p.
                or_else
                  (if is_routed m p
                    then landing_locale p
                    else known (get_entry r.headers landing_header))
                  (chosen_locale case n r.headers cookies))
              e
          ∙ rw (landing_path-is_routed m l, landing_locale_path l)

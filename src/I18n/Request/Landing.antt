-- ===== src/I18n/Request/Landing.antt =====
-- The landing language: what of a request it depends on (proxy).
use purels.Base.{
  Bool, Option, ap, arith, false, if◌then◌else◌, none, refl, some, sym, true, ◌∙◌, ◌≡◌,
}
use purels.I18n.Locale.{Locale, en, is_locale, is_locale_text, locale_text, zh_cn}
use purels.I18n.Negotiate.{preferred_locale}
use purels.I18n.Request.{
  Request, chosen_locale, get_locale, header_text, known, landing_header, landing_headers,
  locale_cookie, or_else, proxy, set_locale,
}
use purels.Js.Case.{CaseMapping}
use purels.Js.Headers.{
  Entries, delete_entry, get_entry, get_entry-delete_entry, get_entry-set_entry, set_entry,
}
use purels.Js.Number.{Numbers}
use purels.Js.Text.{Text, same, text}
use purels.Js.Text.Equality.{same_refl}

-- The two guarded writes behind the deletion, read back.
get_entry_guarded :
    (e z : Bool) (hs : Entries) (name a b other : Text)
    → get_entry
        (if z
          then set_entry
              (if e then set_entry (delete_entry hs name) name a else delete_entry hs name)
              name
              b
          else if e
          then set_entry (delete_entry hs name) name a
          else delete_entry hs name)
        other
      ≡ (if same name other
          then (if z then some b else if e then some a else none)
          else get_entry hs other)
get_entry_guarded true true hs name a b other = ground (
  arith,
  get_entry-set_entry (set_entry (delete_entry hs name) name a) name b other,
  get_entry-set_entry (delete_entry hs name) name a other,
  get_entry-delete_entry hs name other,
)
get_entry_guarded true false hs name a b other = ground (
  arith,
  get_entry-set_entry (delete_entry hs name) name a other,
  get_entry-delete_entry hs name other,
)
get_entry_guarded false true hs name a b other = ground (
  arith,
  get_entry-set_entry (delete_entry hs name) name b other,
  get_entry-delete_entry hs name other,
)
get_entry_guarded false false hs name a b other = get_entry-delete_entry hs name other

get_entry-landing :
    (pathname : Text) (headers : Entries) (other : Text)
    → get_entry (landing_headers pathname headers) other ≡ (
        if same landing_header other
        then (if same pathname (text "/i18n/zh-CN")
            then some (text "zh-CN")
            else if same pathname (text "/i18n/en")
            then some (text "en")
            else none)
        else get_entry headers other)
get_entry-landing pathname headers other =
    get_entry_guarded (same pathname (text "/i18n/en")) (same pathname (text "/i18n/zh-CN")) headers
      landing_header (text "en") (text "zh-CN") other

-- The language that a landing path stands for.
abbrev pub landing_locale : Text → Option Locale
landing_locale pathname =
    if same pathname (text "/i18n/zh-CN")
    then some zh_cn
    else if same pathname (text "/i18n/en")
    then some en
    else none

landing_known :
    (z e : Bool)
    → known (if z then some (text "zh-CN") else if e then some (text "en") else none)
      ≡ (if z then some zh_cn else if e then some en else none)
unfolding is_locale
landing_known true e = refl
landing_known false true = refl
landing_known false false = refl

differs_from_landing : same landing_header (text "accept-language") ≡ false
unfolding same
differs_from_landing = refl

proxy_headers : (r : Request) → (proxy r).headers ≡ landing_headers r.pathname r.headers
unfolding proxy
proxy_headers r = refl

module _ (case : CaseMapping) (n : Numbers) where
  pub get_locale_lem :
      (headers cookies : Entries)
      → get_locale case n headers cookies
        ≡ or_else (known (get_entry headers landing_header)) (chosen_locale case n headers cookies)
  unfolding get_locale
  get_locale_lem headers cookies = refl

  chosen_locale_lem :
      (headers cookies : Entries)
      → chosen_locale case n headers cookies
        ≡ or_else
            (known (get_entry cookies locale_cookie))
            (preferred_locale case n (header_text (get_entry headers (text "accept-language"))))
  unfolding chosen_locale
  chosen_locale_lem headers cookies = refl

  accept_language-landing :
      (pathname : Text) (headers : Entries)
      → get_entry (landing_headers pathname headers) (text "accept-language")
        ≡ get_entry headers (text "accept-language")
  accept_language-landing pathname headers =
      rw (get_entry-landing pathname headers (text "accept-language"), differs_from_landing)

  chosen_locale-landing :
      (pathname : Text) (headers cookies : Entries)
      → chosen_locale case n (landing_headers pathname headers) cookies
        ≡ chosen_locale case n headers cookies
  chosen_locale-landing pathname headers cookies =
      chosen_locale_lem (landing_headers pathname headers) cookies
      ∙ ap
          (λ o.
            or_else (known (get_entry cookies locale_cookie))
              (preferred_locale case n (header_text o)))
          (accept_language-landing pathname headers)
      ∙ sym (chosen_locale_lem headers cookies)

  -- The locale behind the proxy.
  pub get_locale-proxy :
      (r : Request) (cookies : Entries)
      → get_locale case n (proxy r).headers cookies
        ≡ or_else (landing_locale r.pathname) (chosen_locale case n r.headers cookies)
  get_locale-proxy r cookies =
      ap (λ (h : Entries). get_locale case n h cookies) (proxy_headers r)
      ∙ get_locale_lem (landing_headers r.pathname r.headers) cookies
      ∙ rw (
        get_entry-landing r.pathname r.headers landing_header,
        same_refl landing_header,
        landing_known (same r.pathname (text "/i18n/zh-CN")) (same r.pathname (text "/i18n/en")),
        chosen_locale-landing r.pathname r.headers cookies,
      )

set_locale_text :
    (cookies : Entries) (l : Locale)
    → set_locale cookies (locale_text l) ≡ set_entry cookies locale_cookie (locale_text l)
unfolding set_locale
set_locale_text cookies l = rw (is_locale_text l)

-- After a shipped locale is chosen, every request with no landing header is served in that
-- locale, whatever its other headers and cookies.
pub get_locale-set_locale :
    (case : CaseMapping) (n : Numbers) (headers cookies : Entries) (l : Locale)
    → get_entry headers landing_header ≡ none
    → get_locale case n headers (set_locale cookies (locale_text l)) ≡ l
get_locale-set_locale case n headers cookies l h = rw (set_locale_text cookies l) (
    get_locale_lem case n headers (set_entry cookies locale_cookie (locale_text l))
    ∙ rw (
      h,
      chosen_locale_lem case n headers (set_entry cookies locale_cookie (locale_text l)),
      get_entry-set_entry cookies locale_cookie (locale_text l) locale_cookie,
      same_refl locale_cookie,
      is_locale_text l,
    ))

-- Any other value changes nothing.
pub set_locale_ignored :
    (cookies : Entries) (s : Text) → is_locale s ≡ none → set_locale cookies s ≡ cookies
unfolding set_locale
set_locale_ignored cookies s h = rw h

-- ===== src/I18n/Request.antt =====
-- web/src/proxy.ts, web/src/lib/i18n/server.ts and web/src/lib/i18n/actions.ts: how a request gets
-- its locale, and how a choice is remembered.
pub mod Landing
pub mod Routed
use purels.Base.{
  Bool, List, Option, [], any, if◌then◌else◌, none, some, true, ℕ, ◌++◌, ◌==◌, ◌||◌, ◌∷◌, ◌≡◌,
}
use purels.I18n.Locale.{Locale, is_locale}
use purels.I18n.Negotiate.{preferred_locale}
use purels.Js.Case.{CaseMapping}
use purels.Js.Headers.{Entries, delete_entry, get_entry, set_entry}
use purels.Js.Number.{Numbers}
use purels.Js.Text.{Text, same, text}
use purels.Js.Text.Splitting.{IsFilled}

abbrev pub landing_header : Text
landing_header = text "x-purels-landing-locale"

-- `LOCALE_COOKIE`.
abbrev pub locale_cookie : Text
locale_cookie = text "purels_locale"

pub record Request : Type 0 where
  pub pathname : Text
  pub headers : Entries

abbrev landing_headers : Text → Entries → Entries
landing_headers pathname headers =
    let cleared = delete_entry headers landing_header in
    let english =
      if same pathname (text "/i18n/en")
      then set_entry cleared landing_header (text "en")
      else cleared in
    if same pathname (text "/i18n/zh-CN")
    then set_entry english landing_header (text "zh-CN")
    else english

-- `proxy`.
unfoldable pub proxy : Request → Request
unfolding same delete_entry set_entry
proxy r = record r { headers = landing_headers r.pathname r.headers }

-- `config.matcher`: the paths for which the framework runs the proxy.
abbrev pub matcher : List Text
matcher = text "/" ∷ text "/i18n/:path*" ∷ []

abbrev pub ends_segment : ℕ → Bool
ends_segment c = c == b'/' || c == b'#' || c == b'?'

-- How the framework matches a pattern with a path: `:path*` stands for segments, one among them.
pub record Matching : Type 0 where
  pub matches : Text → Text → Bool
  pub matches_segment :
      (segment : Text)
      → IsFilled ends_segment segment
      → matches (text "/i18n/:path*") (text "/i18n/" ++ segment) ≡ true

-- The request as the page receives it, with or without the proxy.
abbrev pub is_routed : Matching → Text → Bool
is_routed m pathname = any (λ pattern_text. m.matches pattern_text pathname) matcher

unfoldable pub routed : Matching → Request → Request
routed m r = if is_routed m r.pathname then proxy r else r

abbrev known : Option Text → Option Locale
known none = none
known (some s) = is_locale s

abbrev pub or_else : Option Locale → Locale → Locale
or_else none l = l
or_else (some k) l = k

abbrev header_text : Option Text → Text
header_text none = []
header_text (some s) = s

module _ (case : CaseMapping) (n : Numbers) where
  -- The explicit choice, or what the browser asks for.
  unfoldable pub chosen_locale : Entries → Entries → Locale
  unfolding get_entry
  chosen_locale headers cookies =
      or_else (known (get_entry cookies locale_cookie))
        (preferred_locale case n (header_text (get_entry headers (text "accept-language"))))

  unfoldable pub get_locale : Entries → Entries → Locale
  unfolding chosen_locale
  get_locale headers cookies =
      or_else (known (get_entry headers landing_header)) (chosen_locale headers cookies)

abbrev remember : Option Locale → Entries → Text → Entries
remember none cookies chosen = cookies
remember (some _) cookies chosen = set_entry cookies locale_cookie chosen

-- `setLocale`: a value that is no locale is ignored.
unfoldable pub set_locale : Entries → Text → Entries
set_locale cookies chosen = remember (is_locale chosen) cookies chosen

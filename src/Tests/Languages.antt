-- ===== src/Tests/Languages.antt =====
-- Locales, messages and worded errors at concrete inputs.
use purels.ApiClient.Error.{server_code}
use purels.ApiClient.Request.{response_error}
use purels.Base.{
  All, Bool, List, Option, [], false, if◌then◌else◌, none, refl, some, true, ◌&&◌, ◌++◌, ◌==◌, ◌||◌,
  ◌∷◌, ◌≡◌,
}
use purels.I18n.Locale.{Locale, locale_text}
use purels.I18n.Negotiate.{preferred_locale}
use purels.I18n.Negotiate.Preferred.{IsPreferred, preferred_locale-IsPreferred}
use purels.I18n.Request.{
  Matching, Request, chosen_locale, ends_segment, get_locale, landing_header, or_else, routed,
  set_locale,
}
use purels.I18n.Request.Landing.{get_locale-set_locale}
use purels.I18n.Request.Routed.{get_locale-routed, landing_path, named_locale}
use purels.I18n.Translate.{has_message, interpolate, is_word, outside, t_for}
use purels.I18n.Translate.Coverage.{t_for_total}
use purels.I18n.Translate.Filling.{
  IsSegment, Segment, copied, fill, interpolate-template, placeholder, template,
}
use purels.I18n.Translate.Wording.{api_error, error_text, other_value}
use purels.I18n.Translate.Wording.Laws.{IsWorded, error_text_total, error_text_uncoded}
use purels.Js.Case.{ascii_mapping}
use purels.Js.Decimal.{decimal, read_decimal}
use purels.Js.Headers.{get_entry}
use purels.Js.Json.{Value, end, field, obj, str}
use purels.Js.Text.{Text, is_empty, same, text}
use purels.Js.Text.Splitting.{IsFilled}
use purels.Tests.Counting.{counting}

abbrev polite_header : Text
polite_header = text "fr, zh-TW;q=1, en"

preferred_locale_run : preferred_locale ascii_mapping counting polite_header ≡ Locale.zh_cn
unfolding preferred_locale read_decimal decimal
preferred_locale_run = refl

preferred_locale-IsPreferred_example :
    IsPreferred ascii_mapping counting polite_header
      (preferred_locale ascii_mapping counting polite_header)
preferred_locale-IsPreferred_example =
    preferred_locale-IsPreferred ascii_mapping counting polite_header

abbrev forged : Request
forged = record {
  pathname = text "/i18n/en";
  headers = (landing_header, text "zh-CN") ∷ (text "accept-language", text "zh") ∷ [];
}

-- A pattern without segments matches itself, and `/:path*` matches all that is under its prefix.
abbrev matches_prefix : Text → Text → Bool
matches_prefix [] path = is_empty path
matches_prefix (c ∷ cs) [] = false
matches_prefix (c ∷ cs) (d ∷ ds) =
    same (c ∷ cs) (text "/:path*") || (c == d && matches_prefix cs ds)

matches_prefix_under :
    (segment : Text)
    → IsFilled ends_segment segment
    → matches_prefix (text "/i18n/:path*") (text "/i18n/" ++ segment) ≡ true
unfolding same
matches_prefix_under segment h = refl

abbrev prefixes : Matching
prefixes = record { matches = matches_prefix; matches_segment = matches_prefix_under }

get_locale-routed_example :
    (get_locale ascii_mapping counting (routed prefixes forged).headers []
      ≡ or_else
          (named_locale prefixes forged)
          (chosen_locale ascii_mapping counting forged.headers []))
    × ((l : Locale)
        → forged.pathname ≡ landing_path l
        → get_locale ascii_mapping counting (routed prefixes forged).headers [] ≡ l)
get_locale-routed_example = get_locale-routed ascii_mapping counting prefixes forged []

no_landing : get_entry ((text "accept-language", text "en") ∷ []) landing_header ≡ none
unfolding get_entry
no_landing = refl

get_locale-set_locale_example :
    get_locale ascii_mapping counting
      ((text "accept-language", text "en") ∷ [])
      (set_locale [] (locale_text Locale.zh_cn))
    ≡ Locale.zh_cn
get_locale-set_locale_example =
    get_locale-set_locale ascii_mapping counting ((text "accept-language", text "en") ∷ []) []
      Locale.zh_cn no_landing

has_close : has_message (text "common.close") ≡ true
unfolding has_message
has_close = refl

t_for_total_example :
    (s : Text) × (t_for counting [] Locale.zh_cn (text "common.close") none ≡ some s)
t_for_total_example = t_for_total counting [] Locale.zh_cn (text "common.close") none has_close

lacks_nothing : has_message (text "no.such.key") ≡ false
unfolding has_message
lacks_nothing = refl

abbrev greeting : List Segment
greeting = copied b'a' ∷ placeholder (text "name") ∷ copied b'}' ∷ []

abbrev who : Text → Option Text
who name = if same name (text "name") then some (text "Ada") else none

greeting-IsSegment : All IsSegment greeting
unfolding is_word
greeting-IsSegment = (refl, ((refl, (refl, (refl, (refl, (refl, tt))))), (refl, tt)))

interpolate-template_example : interpolate who outside (template greeting) ≡ fill who greeting
interpolate-template_example = interpolate-template who greeting greeting-IsSegment

abbrev no_payload : Value
no_payload =
    obj (field (text "error") (obj (field (text "message") (str (text "name: too long")) end)) end)

no_code : is_empty (server_code no_payload) ≡ true
unfolding server_code
no_code = refl

error_text_uncoded_example :
    error_text counting []
      (t_for counting [] Locale.en)
      (api_error (response_error 422 no_payload))
      (text "common.close")
      []
    ≡ some (text "Request failed (" ++ (decimal 422 ++ text ")."))
error_text_uncoded_example =
    error_text_uncoded counting [] 422 no_payload (text "common.close") no_code

error_text_total_example : IsWorded counting [] (
    error_text counting []
      (t_for counting [] Locale.zh_cn)
      other_value
      (text "common.close")
      ((403, text "common.close") ∷ []))
error_text_total_example =
    error_text_total counting [] Locale.zh_cn other_value (text "common.close")
      ((403, text "common.close") ∷ []) has_close (has_close, tt)

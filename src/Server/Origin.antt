-- ===== src/Server/Origin.antt =====
-- `requestOrigin`, and the metadata that is built on it.
pub mod Safety
use purels.Analytics.Patterns.{host_unit, is_digit}
use purels.Base.{List, Option, [], if◌then◌else◌, map, none, not, some, ◌++◌, ◌==◌, ◌∷◌}
use purels.Js.Headers.{Entries, get_entry}
use purels.Js.Regex.{Regex, cls, opt, rep, seq, star, test, unit}
use purels.Js.Text.{Text, before, same, text, trim}

-- `HOST_PATTERN`: `/^[A-Za-z0-9.-]+(?::\d{1,5})?$/`.
abbrev pub host_pattern : Regex
host_pattern =
    seq (seq (cls host_unit) (star (cls host_unit)))
      (opt (seq (unit b':') (rep 1 4 (cls is_digit))))

abbrev pub fallback_origin : Text
fallback_origin = text "http://localhost"

-- `a ?? b` of two headers.
abbrev either_header : Option Text → Option Text → Option Text
either_header none other = other
either_header (some s) other = some s

abbrev text_or : Option Text → Text → Text
text_or none other = other
text_or (some s) other = s

-- `list.split(",")[0].trim()`.
unfoldable pub first_entry : Text → Text
unfolding before trim
first_entry s = trim (before (λ c. c == b',') s)

unfoldable pub request_host : Entries → Text
unfolding first_entry get_entry
request_host incoming = first_entry (
    text_or
      (either_header (get_entry incoming (text "x-forwarded-host"))
        (get_entry incoming (text "host")))
      [])

unfoldable pub request_proto : Entries → Text
unfolding first_entry get_entry
request_proto incoming =
    first_entry (text_or (get_entry incoming (text "x-forwarded-proto")) (text "http"))

unfoldable pub request_origin : Entries → Text
unfolding request_host request_proto test same
request_origin incoming =
    if not (test host_pattern (request_host incoming))
    then fallback_origin
    else (if same (request_proto incoming) (text "https") then text "https" else text "http")
      ++ (text "://" ++ request_host incoming)

pub record Robots : Type 0 where
  pub user_agent : Text
  pub allow : Text
  pub disallow : List Text
  pub sitemap_url : Text

unfoldable pub robots : Entries → Robots
unfolding request_origin
robots incoming = record {
  user_agent = text "*";
  allow = text "/";
  disallow = text "/api/" ∷ [];
  sitemap_url = request_origin incoming ++ text "/sitemap.xml";
}

pub record SitemapEntry : Type 0 where
  pub url : Text
  pub languages : List (Text × Text)

abbrev pub sitemap_languages : Text → List (Text × Text)
sitemap_languages origin =
    (text "en", origin ++ text "/i18n/en")
    ∷ (text "zh-CN", origin ++ text "/i18n/zh-CN")
    ∷ (text "x-default", origin ++ text "/")
    ∷ []

unfoldable pub sitemap : Entries → List SitemapEntry
unfolding request_origin
sitemap incoming =
    map
      (λ path. record {
        url = request_origin incoming ++ path;
        languages = sitemap_languages (request_origin incoming);
      })
      (text "/" ∷ text "/i18n/en" ∷ text "/i18n/zh-CN" ∷ [])

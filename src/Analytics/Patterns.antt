-- ===== src/Analytics/Patterns.antt =====
-- The patterns of analytics-config.ts, each written out as the source has it.

use purels.Base.{Bool, leb, length, within, ℕ, ◌&&◌, ◌==◌, ◌||◌}
use purels.Js.Regex.{Regex, cls, lit, opt, rep, seq, star, test, unit, up_to}
use purels.Js.Text.{Text, includes_unit, is_empty, text}

abbrev pub is_digit : ℕ → Bool
is_digit = within b'0' b'9'

abbrev pub is_upper : ℕ → Bool
is_upper = within b'A' b'Z'

abbrev pub is_lower : ℕ → Bool
is_lower = within b'a' b'z'

-- `[A-Z0-9]`, `[a-z0-9]`, `[A-Za-z0-9]`, `[A-Za-z0-9.-]`.
abbrev pub upper_or_digit : ℕ → Bool
upper_or_digit c = is_upper c || is_digit c

abbrev pub lower_or_digit : ℕ → Bool
lower_or_digit c = is_lower c || is_digit c

abbrev pub letter_or_digit : ℕ → Bool
letter_or_digit c = is_upper c || is_lower c || is_digit c

abbrev pub host_unit : ℕ → Bool
host_unit c = letter_or_digit c || c == b'.' || c == b'-'

-- `[A-Za-z0-9._~!$&()*+,;=:@%/-]`.
abbrev pub path_unit : ℕ → Bool
path_unit c = letter_or_digit c || includes_unit (text "._~!$&()*+,;=:@%/-") c

-- `/^G-[A-Z0-9]{4,20}$/`.
abbrev pub ga4_pattern : Regex
ga4_pattern = seq (lit (text "G-")) (rep 4 16 (cls upper_or_digit))

-- `/^GTM-[A-Z0-9]{4,12}$/`.
abbrev pub gtm_pattern : Regex
gtm_pattern = seq (lit (text "GTM-")) (rep 4 8 (cls upper_or_digit))

-- `/^GT-[A-Z0-9]{4,20}$/`.
abbrev pub google_tag_pattern : Regex
google_tag_pattern = seq (lit (text "GT-")) (rep 4 16 (cls upper_or_digit))

-- `/^https?:\/\/HOST(?::\d{1,5})?(?:\/PATH*)?$/`.
abbrev pub matomo_url_pattern : Regex
matomo_url_pattern = seq (lit (text "http")) (
    seq (opt (unit b's')) (
      seq (lit (text "://")) (
        seq (cls letter_or_digit) (
          seq (opt (seq (star (cls host_unit)) (cls letter_or_digit))) (
            seq (opt (seq (unit b':') (rep 1 4 (cls is_digit))))
              (opt (seq (unit b'/') (star (cls path_unit)))))))))

-- `/^[1-9][0-9]{0,9}$/`.
abbrev pub matomo_site_pattern : Regex
matomo_site_pattern = seq (cls (within b'1' b'9')) (up_to 9 (cls is_digit))

-- `/^[a-z0-9]{6,20}$/`.
abbrev pub clarity_pattern : Regex
clarity_pattern = rep 6 14 (cls lower_or_digit)

abbrev pub max_id_length : ℕ
max_id_length = 64

abbrev pub max_url_length : ℕ
max_url_length = 2048

-- Empty means that the provider is off.
unfoldable pub acceptable : Text → Regex → ℕ → Bool
unfolding test
acceptable value pattern max_length =
    is_empty value || (leb (length value) max_length && test pattern value)

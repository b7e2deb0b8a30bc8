-- ===== src/Analytics/Script.antt =====
-- `jsonForScript`: a string as a JSON literal that no HTML parser reads markup in.
pub mod Decoding
use purels.Base.{[], if◌then◌else◌, ℕ, ◌++◌, ◌==◌, ◌∷◌}
use purels.Js.Json.{json_string}
use purels.Js.Text.{Text, text}

-- `s.replace(/m/g, w)` for one unit.
unfoldable pub replace_unit : ℕ → Text → Text → Text
replace_unit m w [] = []
replace_unit m w (c ∷ cs) = (if c == m then w else c ∷ []) ++ replace_unit m w cs

-- The five replacements, in the source's order.
unfoldable pub escape_markup : Text → Text
unfolding replace_unit
escape_markup s = replace_unit 0x2029 (text "\\u2029") (
    replace_unit 0x2028 (text "\\u2028") (
      replace_unit b'&' (text "\\u0026")
        (replace_unit b'>' (text "\\u003e") (replace_unit b'<' (text "\\u003c") s))))

unfoldable pub json_for_script : Text → Text
unfolding escape_markup json_string
json_for_script value = escape_markup (json_string value)

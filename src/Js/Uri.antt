-- ===== src/Js/Uri.antt =====
-- `encodeURIComponent`, and the serialisation of `URLSearchParams`.
pub mod Component
use purels.Base.{
  Bool, List, Option, [], if◌then◌else◌, ltb, none, some, within, ℕ, ◌%◌, ◌&&◌, ◌*◌, ◌++◌, ◌+◌, ◌-◌,
  ◌/◌, ◌==◌, ◌||◌, ◌∷◌,
}
use purels.Js.Json.{is_high, is_low}
use purels.Js.Text.{Text, includes_unit, text}

-- The code points of a string; a surrogate that stands alone stays what it is.
unfoldable pub scalars : Text → List ℕ
scalars [] = []
scalars (c ∷ []) = c ∷ []
scalars (c ∷ d ∷ cs) =
    let pair = (0x10000 + (c - 0xD800) * 0x400 + (d - 0xDC00)) ∷ scalars cs in
    let single = c ∷ scalars (d ∷ cs) in if is_high c && is_low d then pair else single

abbrev utf8 : ℕ → List ℕ
utf8 c =
    if ltb c 0x80
    then c ∷ []
    else if ltb c 0x800
    then (0xC0 + c / 0x40) ∷ (0x80 + c % 0x40) ∷ []
    else if ltb c 0x10000
    then (0xE0 + c / 0x1000) ∷ (0x80 + c / 0x40 % 0x40) ∷ (0x80 + c % 0x40) ∷ []
    else (0xF0 + c / 0x40000)
      ∷ (0x80 + c / 0x1000 % 0x40)
      ∷ (0x80 + c / 0x40 % 0x40)
      ∷ (0x80 + c % 0x40)
      ∷ []

abbrev pub upper_hex : ℕ → ℕ
upper_hex d = if ltb d 10 then 48 + d else 55 + d

abbrev percent_byte : ℕ → Text
percent_byte b = b'%' ∷ upper_hex (b / 16 % 16) ∷ upper_hex (b % 16) ∷ []

unfoldable pub percent_bytes : List ℕ → Text
percent_bytes [] = []
percent_bytes (b ∷ bs) = percent_byte b ++ percent_bytes bs

abbrev alphanumeric : ℕ → Bool
alphanumeric c = within b'A' b'Z' c || within b'a' b'z' c || within b'0' b'9' c

unfoldable pub is_unreserved : ℕ → Bool
is_unreserved c = alphanumeric c || includes_unit (text "-_.!~*'()") c

unfoldable pub encode_scalar : ℕ → Text
unfolding percent_bytes is_unreserved
encode_scalar c = if is_unreserved c then c ∷ [] else percent_bytes (utf8 c)

-- A surrogate that stands alone is a `URIError`.
unfoldable pub encode_scalars : List ℕ → Option Text
unfolding encode_scalar
encode_scalars [] = some []
encode_scalars (c ∷ cs) = elim (encode_scalars cs) [
  | none ↦ none
  | some rest ↦ if within 0xD800 0xDFFF c then none else some (encode_scalar c ++ rest)
]

unfoldable pub encode_uri_component : Text → Option Text
unfolding encode_scalars scalars
encode_uri_component s = encode_scalars (scalars s)

abbrev form_unit : ℕ → Bool
form_unit c = alphanumeric c || includes_unit (text "*-._") c

unfoldable pub form_scalar : ℕ → Text
unfolding percent_bytes
form_scalar c =
    if c == b' '
    then text "+"
    else if form_unit c
    then c ∷ []
    else if within 0xD800 0xDFFF c
    then percent_bytes (utf8 0xFFFD)
    else percent_bytes (utf8 c)

unfoldable pub form_text : List ℕ → Text
unfolding form_scalar
form_text [] = []
form_text (c ∷ cs) = form_scalar c ++ form_text cs

-- `query.toString()`.
unfoldable pub query_text : List (Text × Text) → Text
unfolding form_text scalars
query_text [] = []
query_text ((k, v) ∷ []) = form_text (scalars k) ++ (text "=" ++ form_text (scalars v))
query_text ((k, v) ∷ p ∷ ps) =
    form_text (scalars k)
    ++ (text "=" ++ (form_text (scalars v) ++ (text "&" ++ query_text (p ∷ ps))))

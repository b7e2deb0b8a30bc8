-- ===== src/Js/Json.antt =====
-- Values as `JSON.parse` builds them, reading their properties, and `JSON.stringify`.
pub mod Literal
pub mod RoundTrip
use purels.Base.{
  Bool, Option, [], false, if◌then◌else◌, ltb, none, some, true, within, ℕ, ◌%◌, ◌&&◌, ◌++◌, ◌+◌,
  ◌/◌, ◌==◌, ◌||◌, ◌∷◌,
}
use purels.Js.Text.{Text, same, text}

-- A number keeps its literal text: the modelled code reads none. The fields of an object have
-- distinct keys.
mutual
  pub data Value : Type 0 where
    undefined : Value
    null : Value
    bool : Bool → Value
    num : Text → Value
    str : Text → Value
    arr : Items → Value
    obj : Fields → Value

  pub data Items : Type 0 where
    nil : Items
    cons : Value → Items → Items

  pub data Fields : Type 0 where
    end : Fields
    field : Text → Value → Fields → Fields

-- `o[key]`: a missing key reads as `undefined`.
unfoldable pub get : Fields → Text → Value
unfolding same
get end key = undefined
get (field k v fs) key = if same k key then v else get fs key

-- `key in o`.
unfoldable pub has_key : Fields → Text → Bool
unfolding same
has_key end key = false
has_key (field k v fs) key = same k key || has_key fs key

-- A lower-case hexadecimal digit.
abbrev pub hex : ℕ → ℕ
hex d = if ltb d 10 then 48 + d else 87 + d

abbrev pub unicode_escape : ℕ → Text
unicode_escape c =
    b'\\' ∷ b'u' ∷ hex (c / 4096 % 16) ∷ hex (c / 256 % 16) ∷ hex (c / 16 % 16) ∷ hex (c % 16) ∷ []

abbrev pub is_high : ℕ → Bool
is_high c = within 0xD800 0xDBFF c

abbrev pub is_low : ℕ → Bool
is_low c = within 0xDC00 0xDFFF c

-- The table of single character escapes.
unfoldable pub short_escape : ℕ → Option ℕ
short_escape c =
    if c == b'"' || c == b'\\'
    then some c
    else if c == 8
    then some b'b'
    else if c == 9
    then some b't'
    else if c == 10
    then some b'n'
    else if c == 12
    then some b'f'
    else if c == 13
    then some b'r'
    else none

unfoldable pub quote_by : Option ℕ → ℕ → Text
quote_by (some e) c = b'\\' ∷ e ∷ []
quote_by none c = if ltb c 32 || within 0xD800 0xDFFF c then unicode_escape c else c ∷ []

-- One unit of a quoted string; a surrogate that gets here stands alone.
unfoldable pub quote_unit : ℕ → Text
unfolding short_escape quote_by
quote_unit c = quote_by (short_escape c) c

unfoldable pub quote_units : Text → Text
unfolding quote_unit
quote_units [] = []
quote_units (c ∷ []) = quote_unit c
quote_units (c ∷ d ∷ cs) =
    let pair = c ∷ d ∷ quote_units cs in
    let single = quote_unit c ++ quote_units (d ∷ cs) in
    if is_high c && is_low d then pair else single

-- `JSON.stringify` of a string.
unfoldable pub json_string : Text → Text
unfolding quote_units
json_string s = b'"' ∷ (quote_units s ++ (b'"' ∷ []))

abbrev comma : Bool → Text
comma first = if first then [] else text ","

-- `JSON.stringify` of a value: `undefined` is `null` in an array and left out of an object.
unfoldable mutual
  unfolding json_string

  pub stringify : Value → Text
  stringify undefined = text "null"
  stringify null = text "null"
  stringify (bool b) = if b then text "true" else text "false"
  stringify (num n) = n
  stringify (str s) = json_string s
  stringify (arr vs) = text "[" ++ (stringify_items true vs ++ text "]")
  stringify (obj fs) = text "{" ++ (stringify_fields true fs ++ text "}")

  pub stringify_items : Bool → Items → Text
  stringify_items first nil = []
  stringify_items first (cons v vs) = comma first ++ (stringify v ++ stringify_items false vs)

  pub stringify_fields : Bool → Fields → Text
  stringify_fields first end = []
  stringify_fields first (field k undefined fs) = stringify_fields first fs
  stringify_fields first (field k v fs) =
      comma first ++ (json_string k ++ (text ":" ++ (stringify v ++ stringify_fields false fs)))

-- ===== src/ApiClient/Error.antt =====
-- `ApiError`, and what an error response says about itself.
use purels.Base.{Bool, [], false, if◌then◌else◌, not, true, ℕ, ◌∷◌}
use purels.Js.Json.{Value, arr, get, has_key, obj, str, undefined}
use purels.Js.Text.{Text, text, trim}

pub record ApiError : Type 0 where
  pub message : Text
  pub status : ℕ
  pub code : Text
  pub details : Value

-- A property of `undefined`, `null` or a primitive is not read by the code below.
abbrev pub property : Value → Text → Value
property (obj fs) key = get fs key
property _ key = undefined

abbrev pub is_object : Value → Bool
is_object (obj _) = true
is_object (arr _) = true
is_object _ = false

abbrev pub string_of : Value → Text
string_of (str s) = s
string_of _ = []

-- `typeof message === "string" && message`.
abbrev pub or_text : Text → Text → Text
or_text [] other = other
or_text (c ∷ s) other = c ∷ s

abbrev envelope_text : Value → Text → Text
envelope_text envelope key = if is_object envelope then string_of (property envelope key) else []

-- `serverMessage`: the envelope's message, or else the payload's own.
unfoldable pub server_message : Value → Text
unfolding trim get
server_message (str s) = trim s
server_message payload =
    if not (is_object payload)
    then []
    else or_text (envelope_text (property payload (text "error")) (text "message"))
        (string_of (property payload (text "message")))

-- `serverCode`.
unfoldable pub server_code : Value → Text
unfolding get
server_code payload =
    if not (is_object payload)
    then []
    else envelope_text (property payload (text "error")) (text "code")

-- `unwrapKey`: the named field, if the payload is an object that has it.
abbrev unwrap_field : Value → Bool → Value → Value
unwrap_field payload has inner = if has then inner else payload

unfoldable pub unwrap_key : Value → Text → Value
unfolding get has_key
unwrap_key (obj fs) key = unwrap_field (obj fs) (has_key fs key) (get fs key)
unwrap_key payload key = payload

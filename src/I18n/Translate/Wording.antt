-- ===== src/I18n/Translate/Wording.antt =====
-- `errorText` of web/src/lib/i18n/index.ts.
pub mod Laws
use purels.ApiClient.Error.{ApiError}
use purels.Base.{List, Option, [], if◌then◌else◌, none, not, some, ℕ, ◌&&◌, ◌++◌, ◌==◌, ◌∷◌}
use purels.I18n.Translate.{Params, has_message, text_param}
use purels.Js.Decimal.{decimal}
use purels.Js.Number.{Numbers}
use purels.Js.Text.{Text, is_empty, text}

-- What a `catch` may get: an `ApiError`, an `Error` with its message, or anything else.
pub data Thrown : Type 0 where
  api_error : ApiError → Thrown
  plain_error : Text → Thrown
  other_value : Thrown

abbrev Translation : Numbers → List (Text × Text) → Type 0
Translation n inherited = Text → Option (Params n inherited) → Option Text

abbrev find_override : List (ℕ × Text) → ℕ → Text
find_override [] status = []
find_override ((s, key) ∷ overrides) status =
    if s == status then key else find_override overrides status

abbrev pub error_key : Text → Text
error_key code = text "error." ++ code

module _ (n : Numbers) (inherited : List (Text × Text)) where
  abbrev pub status_param : ℕ → Option (Params n inherited)
  status_param status = some ((text "status", text_param (decimal status)) ∷ [])

  abbrev pub own_message : Translation n inherited → Text → Text → Option Text
  own_message t message fallback = if is_empty message then t fallback none else some message

  -- An override that is absent is the empty text, which is no key.
  unfoldable pub error_text :
      Translation n inherited → Thrown → Text → List (ℕ × Text) → Option Text
  unfolding has_message
  error_text t (api_error e) fallback overrides =
      if not (is_empty (find_override overrides e.status))
      then t (find_override overrides e.status) none
      else if not (is_empty e.code) && has_message (error_key e.code)
      then t (error_key e.code) (status_param e.status)
      else own_message t e.message fallback
  error_text t (plain_error message) fallback overrides = own_message t message fallback
  error_text t other_value fallback overrides = t fallback none

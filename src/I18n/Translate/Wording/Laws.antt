-- ===== src/I18n/Translate/Wording/Laws.antt =====
-- The texts of errors, with a code and without.
use purels.ApiClient.Error.{ApiError, or_text, server_code}
use purels.ApiClient.Request.{response_error}
use purels.Base.{
  &&_true, All, Bool-cases, List, Option, [], false, if◌then◌else◌, inl, inr, none, not, refl, some,
  true, ℕ, ◌&&◌, ◌++◌, ◌==◌, ◌∷◌, ◌≡◌, ◌⊎◌,
}
use purels.I18n.Locale.{Locale}
use purels.I18n.Translate.{has_message, t_for}
use purels.I18n.Translate.Coverage.{t_for_total}
use purels.I18n.Translate.Wording.{
  Thrown, api_error, error_key, error_text, find_override, other_value, own_message, plain_error,
  status_param,
}
use purels.Js.Decimal.{decimal}
use purels.Js.Json.{Value}
use purels.Js.Number.{Numbers}
use purels.Js.Text.{Text, is_empty, text}

code_or_default :
    (code : Text) → is_empty code ≡ true → or_text code (text "http_error") ≡ text "http_error"
code_or_default [] h = refl
code_or_default (c ∷ code) h = cc

abbrev pub IsKeyed : ℕ × Text → Type 0
IsKeyed (status, key) = has_message key ≡ true

find_override-IsKeyed :
    (overrides : List (ℕ × Text)) (status : ℕ)
    → All IsKeyed overrides
    → (find_override overrides status ≡ []) ⊎ (has_message (find_override overrides status) ≡ true)
find_override-IsKeyed [] status h = inl refl
find_override-IsKeyed ((s, key) ∷ overrides) status (h, hs) = elim (Bool-cases (s == status)) [
  | inl e ↦ rw e (inr h)
  | inr e ↦ rw e (find_override-IsKeyed overrides status hs)
]

module _ (n : Numbers) (inherited : List (Text × Text)) where
  abbrev pub IsWorded : Option Text → Type 0
  IsWorded o = (s : Text) × (o ≡ some s)

  own_message_total :
      (l : Locale) (message fallback : Text)
      → has_message fallback ≡ true
      → IsWorded (own_message n inherited (t_for n inherited l) message fallback)
  own_message_total l [] fallback h = t_for_total n inherited l fallback none h
  own_message_total l (c ∷ s) fallback h = (c ∷ s, refl)

  coded_total :
      (l : Locale) (e : ApiError) (fallback : Text)
      → has_message fallback ≡ true
      → IsWorded (
          if not (is_empty e.code) && has_message (error_key e.code)
          then t_for n inherited l (error_key e.code) (status_param n inherited e.status)
          else own_message n inherited (t_for n inherited l) e.message fallback)
  coded_total l e fallback h =
      elim (Bool-cases (not (is_empty e.code) && has_message (error_key e.code))) [
        | inl coded ↦ rw coded (
            t_for_total n inherited l (error_key e.code) (status_param n inherited e.status)
              ((&&_true _ _).0 coded).1)
        | inr other ↦ rw other (own_message_total l e.message fallback h)
      ]

  -- In every locale, whatever was thrown is given a text, if the fallback and the overrides are
  -- keys of the English dictionary.
  pub error_text_total :
      (l : Locale) (thrown : Thrown) (fallback : Text) (overrides : List (ℕ × Text))
      → has_message fallback ≡ true
      → All IsKeyed overrides
      → IsWorded (error_text n inherited (t_for n inherited l) thrown fallback overrides)
  unfolding error_text
  error_text_total l (plain_error message) fallback overrides h hs =
      own_message_total l message fallback h
  error_text_total l other_value fallback overrides h hs = t_for_total n inherited l fallback none h
  error_text_total l (api_error e) fallback overrides h hs =
      elim (find_override-IsKeyed overrides e.status hs) [
        | inl absent ↦ rw absent (coded_total l e fallback h)
        | inr keyed ↦ override (find_override overrides e.status) keyed
      ]
    where
      override :
          (key : Text)
          → has_message key ≡ true
          → IsWorded (
              if not (is_empty key)
              then t_for n inherited l key none
              else if not (is_empty e.code) && has_message (error_key e.code)
              then t_for n inherited l (error_key e.code) (status_param n inherited e.status)
              else own_message n inherited (t_for n inherited l) e.message fallback)
      override [] k = coded_total l e fallback h
      override (c ∷ key) k = t_for_total n inherited l (c ∷ key) none k

  http_error_en :
      (status : ℕ)
      → t_for n inherited Locale.en
          (error_key (text "http_error"))
          (status_param n inherited status)
        ≡ some (text "Request failed (" ++ (decimal status ++ text ")."))
  unfolding t_for purels.I18n.Messages.En.en
  http_error_en status = refl

  -- An error response that carries no code is worded in English as "Request failed (status)."
  -- whatever message the API wrote in it, if the page overrides nothing.
  pub error_text_uncoded :
      (status : ℕ) (payload : Value) (fallback : Text)
      → is_empty (server_code payload) ≡ true
      → error_text n inherited
          (t_for n inherited Locale.en)
          (api_error (response_error status payload))
          fallback
          []
        ≡ some (text "Request failed (" ++ (decimal status ++ text ")."))
  unfolding error_text
  error_text_uncoded status payload fallback h =
      rw (code_or_default (server_code payload) h) (http_error_en status)

  -- An error response whose code has a message is worded by that message in the page's locale
  -- with the status as its parameter, if the page overrides nothing.
  pub error_text_coded :
      (l : Locale) (status : ℕ) (payload : Value) (fallback : Text)
      → is_empty (server_code payload) ≡ false
      → has_message (error_key (server_code payload)) ≡ true
      → error_text n inherited
          (t_for n inherited l)
          (api_error (response_error status payload))
          fallback
          []
        ≡ t_for n inherited l (error_key (server_code payload)) (status_param n inherited status)
  unfolding error_text
  error_text_coded l status payload fallback h k = coded (server_code payload) h k
    where
      coded :
          (code : Text)
          → is_empty code ≡ false
          → has_message (error_key code) ≡ true
          → (if not (is_empty (or_text code (text "http_error")))
                && has_message (error_key (or_text code (text "http_error")))
              then t_for n inherited l
                  (error_key (or_text code (text "http_error")))
                  (status_param n inherited status)
              else own_message n inherited
                  (t_for n inherited l)
                  (response_error status payload).message
                  fallback)
            ≡ t_for n inherited l (error_key code) (status_param n inherited status)
      coded [] h k = cc
      coded (c ∷ code) h k = rw k

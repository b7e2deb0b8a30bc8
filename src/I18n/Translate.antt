-- ===== src/I18n/Translate.antt =====
-- web/src/lib/i18n/index.ts: looking a message up, filling it in, and wording an error.
pub mod Filling
pub mod Coverage
pub mod Wording
use mathlib.Core.Option
use purels.Base.{
  Bool, List, Option, String, [], false, if◌then◌else◌, map, none, not, some, true, within, ℕ, ◌&&◌,
  ◌++◌, ◌==◌, ◌||◌, ◌∷◌,
}
use purels.I18n.Locale.{Locale}
use purels.I18n.Message.{Message, plain, plural}
use purels.I18n.Messages.En.{en}
use purels.I18n.Messages.ZhCn.{zh_cn}
use purels.Js.Headers.{get_entry}
use purels.Js.Number.{Numbers}
use purels.Js.Text.{Text, is_empty, same, text}

-- `\w`.
unfoldable pub is_word : ℕ → Bool
is_word c = within b'A' b'Z' c || within b'a' b'z' c || within b'0' b'9' c || c == b'_'

-- Outside a placeholder, or inside one with the name so far.
pub data Scan : Type 0 where
  outside : Scan
  inside : Text → Scan

abbrev pub braced : Text → Text
braced name = b'{' ∷ (name ++ (b'}' ∷ []))

-- `name in params ? String(params[name]) : match`.
abbrev pub value_or_match : Option Text → Text → Text
value_or_match none name = braced name
value_or_match (some v) name = v

-- `text.replace(/\{(\w+)\}/g, …)`: a brace that begins no placeholder is kept.
unfoldable pub interpolate : (Text → Option Text) → Scan → Text → Text
unfolding is_word
interpolate f outside [] = []
interpolate f (inside name) [] = b'{' ∷ name
interpolate f outside (c ∷ cs) =
    let opened = interpolate f (inside []) cs in
    let copied = interpolate f outside cs in if c == b'{' then opened else c ∷ copied
interpolate f (inside name) (c ∷ cs) =
    let longer = interpolate f (inside (name ++ (c ∷ []))) cs in
    let opened = interpolate f (inside []) cs in
    let after = interpolate f outside cs in
    if is_word c
    then longer
    else if c == b'}' && not (is_empty name)
    then value_or_match (f name) name ++ after
    else if c == b'{'
    then b'{' ∷ (name ++ opened)
    else b'{' ∷ (name ++ (c ∷ after))

-- `messages[key]`.
unfoldable pub find_message : List (String × Message) → Text → Option Message
unfolding same
find_message [] key = none
find_message ((k, m) ∷ ms) key = if same (text k) key then some m else find_message ms key

-- `hasMessage`.
unfoldable pub has_message : Text → Bool
unfolding find_message en
has_message key = elim (find_message en key) [ none ↦ false | some _ ↦ true ]

abbrev pub dictionary : Locale → List (String × Message)
dictionary Locale.en = en
dictionary Locale.zh_cn = zh_cn

-- The properties that every object inherits are `in` the parameters too.
module _ (n : Numbers) (inherited : List (Text × Text)) where
  open n use {Num, number, to_text, is_one}

  pub data Param : Type 0 where
    text_param : Text → Param
    num_param : Num → Param

  abbrev pub Params : Type 0
  Params = List (Text × Param)

  abbrev param_text : Param → Text
  param_text (text_param s) = s
  param_text (num_param k) = to_text k

  unfoldable pub find_param : Params → Text → Option Param
  unfolding same
  find_param [] name = none
  find_param ((k, v) ∷ ps) name = if same k name then some v else find_param ps name

  abbrev pub param_value : Params → Text → Option Text
  param_value ps name = elim (find_param ps name) [
    | none ↦ get_entry inherited name
    | some p ↦ some (param_text p)
  ]

  -- `Number(params?.count) === 1`; a missing count is not a number.
  abbrev is_singular : Option Param → Bool
  is_singular none = false
  is_singular (some (text_param s)) = is_one (number s)
  is_singular (some (num_param k)) = is_one k

  abbrev count_param : Option Params → Option Param
  count_param none = none
  count_param (some ps) = find_param ps (text "count")

  abbrev pub form : Message → Option Params → Text
  form (plain s) ps = text s
  form (plural one other) ps = if is_singular (count_param ps) then text one else text other

  abbrev pub filled : Text → Option Params → Text
  filled s none = s
  filled s (some ps) = interpolate (param_value ps) outside s

  -- `createT`: `none` is the error of a key that the dictionary lacks.
  unfoldable pub create_t : List (String × Message) → Text → Option Params → Option Text
  unfolding interpolate find_message find_param
  create_t messages key ps = Option.map (λ m. filled (form m ps) ps) (find_message messages key)

  -- `tFor`.
  unfoldable pub t_for : Locale → Text → Option Params → Option Text
  unfolding create_t
  t_for l = create_t (dictionary l)

  -- `enumLabel`.
  unfoldable pub enum_label : Locale → Text → Text → Option Text
  unfolding has_message t_for
  enum_label l prefix name =
      if has_message (prefix ++ (text "." ++ name))
      then t_for l (prefix ++ (text "." ++ name)) none
      else some name

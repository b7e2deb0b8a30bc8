-- ===== src/I18n/Translate/Coverage.antt =====
-- The two dictionaries against the keys of `MessageKey`.
use purels.Base.{
  Bool, Bool-cases, List, Option, Option-cases, String, [], ap, false, inl, inr, none, refl, some,
  sym, true, ◌++◌, ◌||◌, ◌∙◌, ◌∷◌, ◌≡◌,
}
use purels.I18n.Locale.{Locale}
use purels.I18n.Message.{Message}
use purels.I18n.Messages.En.{en}
use purels.I18n.Messages.ZhCn.{zh_cn}
use purels.I18n.Translate.{
  Params, create_t, dictionary, enum_label, filled, find_message, form, has_message, t_for,
}
use purels.Js.Number.{Numbers}
use purels.Js.Text.{Text, same, text}

-- The keys of a dictionary, in its order.
abbrev keys : List (String × Message) → List String
keys [] = []
keys ((k, m) ∷ ms) = k ∷ keys ms

includes_key : List String → Text → Bool
unfolding same
includes_key [] key = false
includes_key (k ∷ ks) key = same (text k) key || includes_key ks key

abbrev is_some {ℓ} : {A : Type ℓ} → Option A → Bool
is_some none = false
is_some (some _) = true

is_some-find_message :
    (ms : List (String × Message)) (key : Text)
    → is_some (find_message ms key) ≡ includes_key (keys ms) key
unfolding find_message includes_key
is_some-find_message [] key = refl
is_some-find_message ((k, m) ∷ ms) key = elim (Bool-cases (same (text k) key)) [
  | inl e ↦ rw e
  | inr e ↦ rw e (is_some-find_message ms key)
]

keys-zh_cn : keys zh_cn ≡ keys en
unfolding zh_cn en
keys-zh_cn = refl

keys-dictionary : (l : Locale) → keys (dictionary l) ≡ keys en
keys-dictionary Locale.en = refl
keys-dictionary Locale.zh_cn = keys-zh_cn

has_message-is_some : (key : Text) → has_message key ≡ is_some (find_message en key)
unfolding has_message
has_message-is_some key = elim (Option-cases (find_message en key)) [
  | inl e ↦ rw e
  | inr (m, e) ↦ rw e
]

value_of {ℓ} : {A : Type ℓ} (o : Option A) → is_some o ≡ true → (a : A) × (o ≡ some a)
value_of none h = cc
value_of (some a) h = (a, refl)

pub find_message-dictionary :
    (l : Locale) (key : Text)
    → has_message key ≡ true
    → (m : Message) × (find_message (dictionary l) key ≡ some m)
find_message-dictionary l key h = value_of (find_message (dictionary l) key) (
    is_some-find_message (dictionary l) key
    ∙ ap (λ ks. includes_key ks key) (keys-dictionary l)
    ∙ sym (is_some-find_message en key)
    ∙ sym (has_message-is_some key)
    ∙ h)

module _ (n : Numbers) (inherited : List (Text × Text)) where
  -- A key of the English dictionary has a message in every locale: translating it gives a text,
  -- whatever the parameters.
  pub t_for_total :
      (l : Locale) (key : Text) (ps : Option (Params n inherited))
      → has_message key ≡ true
      → (s : Text) × (t_for n inherited l key ps ≡ some s)
  unfolding t_for create_t
  t_for_total l key ps h =
      let (m, e) = find_message-dictionary l key h in
      (filled n inherited (form n inherited m ps) ps, rw e)

  -- A key that the English dictionary lacks has no text in any locale.
  pub t_for_missing :
      (l : Locale) (key : Text) (ps : Option (Params n inherited))
      → has_message key ≡ false
      → t_for n inherited l key ps ≡ none
  unfolding t_for create_t
  t_for_missing l key ps h = elim (Option-cases (find_message (dictionary l) key)) [
    | inl e ↦ rw e
    | inr (m, e) ↦ cc (
      is_some-find_message (dictionary l) key,
      ap (λ ks. includes_key ks key) (keys-dictionary l),
      is_some-find_message en key,
      has_message-is_some key,
      ap is_some e,
    )
  ]

  -- The label of an enumeration's value is total: a value with no message is shown as it is.
  pub enum_label_total :
      (l : Locale) (prefix name : Text)
      → (s : Text) × (enum_label n inherited l prefix name ≡ some s)
  unfolding enum_label
  enum_label_total l prefix name = elim (Bool-cases (has_message (prefix ++ (text "." ++ name)))) [
    | inl e ↦ rw e (t_for_total l (prefix ++ (text "." ++ name)) none e)
    | inr e ↦ (name, rw e)
  ]

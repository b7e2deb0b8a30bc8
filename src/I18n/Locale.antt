-- ===== src/I18n/Locale.antt =====
-- web/src/lib/i18n/index.ts: the shipped languages.
use purels.Base.{Bool, List, Option, [], if◌then◌else◌, none, refl, some, ◌∷◌, ◌≡◌}
use purels.Js.Text.{Text, same, text}

pub data Locale : Type 0 where
  en zh_cn : Locale

abbrev pub locale_text : Locale → Text
locale_text en = text "en"
locale_text zh_cn = text "zh-CN"

-- `LOCALES`, in the order of the switcher, and `DEFAULT_LOCALE`.
abbrev pub locales : List Locale
locales = en ∷ zh_cn ∷ []

abbrev pub default_locale : Locale
default_locale = en

-- `isLocale`: the locale that the value names, if it names one.
unfoldable pub find_locale : (Locale → Bool) → List Locale → Option Locale
find_locale p [] = none
find_locale p (l ∷ ls) = if p l then some l else find_locale p ls

unfoldable pub is_locale : Text → Option Locale
unfolding find_locale same
is_locale value = find_locale (λ l. same (locale_text l) value) locales

pub is_locale_text : (l : Locale) → is_locale (locale_text l) ≡ some l
unfolding is_locale
is_locale_text en = refl
is_locale_text zh_cn = refl

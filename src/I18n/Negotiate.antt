-- ===== src/I18n/Negotiate.antt =====
-- web/src/lib/i18n/negotiate.ts: the locale that a browser's Accept-Language asks for.
pub mod Choice
pub mod Preferred
use purels.Base.{List, Option, [], if◌then◌else◌, none, not, some, zero, ◌==◌, ◌||◌, ◌∷◌}
use purels.I18n.Locale.{Locale, default_locale, find_locale, locale_text, locales}
use purels.Js.Case.{CaseMapping}
use purels.Js.Number.{Numbers}
use purels.Js.Text.{Text, before, cut_at, is_empty, same, split_by, text, trim}

module _ (case : CaseMapping) (n : Numbers) where
  open n use {Num, number, is_finite, num_leb, minus_one, zero, one}

  -- `tag.split("-")[0].toLowerCase()`.
  unfoldable pub primary : Text → Text
  unfolding before
  primary tag = case.to_lower (before (λ c. c == b'-') tag)

  unfoldable pub match_tag : Text → Option Locale
  unfolding primary find_locale same
  match_tag tag = find_locale (λ l. same (primary (locale_text l)) (primary tag)) locales

  pub record Tag : Type 0 where
    pub tag : Text
    pub quality : Num

  abbrev pub no_tag : Tag
  no_tag = record { tag = []; quality = zero }

  -- One parameter: `none` where its quality will not parse, else the quality from here on.
  unfoldable pub read_quality : Num → Option (Text × Text) → Option Num
  unfolding same trim
  read_quality quality none = some quality
  read_quality quality (some (name, value)) =
      if not (same (case.to_lower (trim name)) (text "q"))
      then some quality
      else if is_finite (number (trim value))
      then some (number (trim value))
      else none

  unfoldable pub read_params : Num → List Text → Option Num
  unfolding read_quality cut_at
  read_params quality [] = some quality
  read_params quality (param ∷ params) = elim (read_quality quality (cut_at b'=' param)) [
    | none ↦ none
    | some q ↦ read_params q params
  ]

  abbrev finish_tag : Text → Option Num → Tag
  finish_tag tag none = no_tag
  finish_tag tag (some q) = record { tag = trim tag; quality = q }

  abbrev read_parts : List Text → Tag
  read_parts [] = no_tag
  read_parts (tag ∷ params) = finish_tag tag (read_params one params)

  unfoldable pub parse_tag : Text → Tag
  unfolding trim read_params split_by
  parse_tag part =
      if is_empty (trim part) then no_tag else read_parts (split_by (λ c. c == b';') (trim part))

  -- `best` and `bestQuality`, and one round of the loop.
  pub record Best : Type 0 where
    pub locale : Locale
    pub quality : Num

  abbrev consider : Best → Num → Option Locale → Best
  consider best q none = best
  consider best q (some l) =
      if num_leb q best.quality then best else record { locale = l; quality = q }

  unfoldable pub consider_tag : Best → Tag → Best
  consider_tag best t =
      if is_empty t.tag || num_leb t.quality zero
      then best
      else consider best t.quality (match_tag t.tag)

  unfoldable pub consider_parts : Best → List Text → Best
  consider_parts best [] = best
  consider_parts best (part ∷ parts) = consider_parts (consider_tag best (parse_tag part)) parts

  -- A missing header is the empty text.
  unfoldable pub preferred_locale : Text → Locale
  unfolding consider_parts consider_tag match_tag parse_tag split_by
  preferred_locale accept_language =
      (consider_parts (record { locale = default_locale; quality = minus_one })
        (split_by (λ c. c == b',') accept_language)).locale

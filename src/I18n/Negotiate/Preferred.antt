-- ===== src/I18n/Negotiate/Preferred.antt =====
-- What `preferredLocale` answers for a whole header.
use purels.Base.{
  All, All-append, Bool-cases, List, Option, [], ap, arith, false, inl, inr, none, refl, some, true,
  ◌==◌, ◌||◌, ◌∙◌, ◌∷◌, ◌≡◌, ◌⊎◌,
}
use purels.I18n.Locale.{Locale, default_locale}
use purels.I18n.Negotiate.{
  Best, Tag, consider_parts, finish_tag, match_tag, parse_tag, preferred_locale, read_params,
  read_parts, read_quality,
}
use purels.I18n.Negotiate.Choice.{
  Candidate, IsBelow, IsFirstBest, IsOffer, candidate, candidates, choose, choose-candidates,
  choose_lem, offer,
}
use purels.Js.Case.{CaseMapping}
use purels.Js.Number.{Numbers}
use purels.Js.Text.{Text, cut_at, is_empty, split_by, trim}

module _ (case : CaseMapping) (n : Numbers) where
  open n use {
    Num, number, is_finite, num_leb, minus_one, zero, one, leb_trans, one_finite, zero_finite,
    minus_one_finite, minus_one-le-zero,
  }

  -- Qualities that are read are finite.
  read_quality_finite :
      (q : Num) (o : Option (Text × Text)) (r : Num)
      → is_finite q ≡ true
      → read_quality case n q o ≡ some r
      → is_finite r ≡ true
  unfolding read_quality
  read_quality_finite q none r h e = ground arith
  read_quality_finite q (some (name, value)) r h e = ground arith

  read_params_finite :
      (params : List Text) (q r : Num)
      → is_finite q ≡ true
      → read_params case n q params ≡ some r
      → is_finite r ≡ true
  unfolding read_params
  read_params_finite [] q r h e = ground arith
  read_params_finite (p ∷ params) q r h e =
      step (read_quality case n q (cut_at b'=' p)) refl e (read_params_finite params)
    where
      step :
          (o : Option Num)
          → read_quality case n q (cut_at b'=' p) ≡ o
          → elim o [ none ↦ none | some x ↦ read_params case n x params ] ≡ some r
          → ((x y : Num)
              → is_finite x ≡ true
              → read_params case n x params ≡ some y
              → is_finite y ≡ true)
          → is_finite r ≡ true
      step none k e' rec = cc
      step (some x) k e' rec = rec x r (read_quality_finite q (cut_at b'=' p) x h k) e'

  finish_tag_finite :
      (tag : Text) (o : Option Num)
      → ((r : Num) → o ≡ some r → is_finite r ≡ true)
      → is_finite (finish_tag case n tag o).quality ≡ true
  finish_tag_finite tag none h = zero_finite
  finish_tag_finite tag (some q) h = h q refl

  read_parts_finite : (ps : List Text) → is_finite (read_parts case n ps).quality ≡ true
  read_parts_finite [] = zero_finite
  read_parts_finite (tag ∷ params) =
      finish_tag_finite tag (read_params case n one params)
        (λ r e. read_params_finite params one r one_finite e)

  parse_tag_finite : (part : Text) → is_finite (parse_tag case n part).quality ≡ true
  unfolding parse_tag
  parse_tag_finite part = elim (Bool-cases (is_empty (trim part))) [
    | inl e ↦ rw e zero_finite
    | inr e ↦ rw e (read_parts_finite (split_by (λ c. c == b';') (trim part)))
  ]

  candidate-IsOffer :
      (t : Tag case n) → is_finite t.quality ≡ true → All (IsOffer case n) (candidate case n t)
  unfolding candidate
  candidate-IsOffer t h = elim (Bool-cases (is_empty t.tag || num_leb t.quality zero)) [
    | inl skip ↦ rw skip tt
    | inr e ↦ rw e (offered (match_tag case n t.tag) (ground arith))
  ]
    where
      offered :
          (o : Option Locale)
          → num_leb t.quality zero ≡ false
          → All (IsOffer case n) (offer case n t.quality o)
      offered none k = tt
      offered (some l) k = ((h, k), tt)

  candidates-IsOffer : (parts : List Text) → All (IsOffer case n) (candidates case n parts)
  unfolding candidates
  candidates-IsOffer [] = tt
  candidates-IsOffer (part ∷ parts) =
      All-append (IsOffer case n) (candidate case n (parse_tag case n part))
        (candidates case n parts)
        (candidate-IsOffer (parse_tag case n part) (parse_tag_finite part))
        (candidates-IsOffer parts)

  -- The entries of a header.
  abbrev pub entries : Text → List Text
  entries accept_language = split_by (λ c. c == b',') accept_language

  abbrev pub IsPreferred : Text → Locale → Type 0
  IsPreferred header l =
      ((candidates case n (entries header) ≡ []) × (l ≡ default_locale))
      ⊎ ((q : Num) × IsFirstBest case n (candidates case n (entries header)) l q)

  abbrev first_best : Best case n
  first_best = record { locale = default_locale; quality = minus_one }

  -- No candidate is below -1.
  kept_nil :
      (cs : List (Candidate case n))
      → All (IsOffer case n) cs
      → All (IsBelow case n minus_one) cs
      → cs ≡ []
  kept_nil [] h k = refl
  kept_nil (c ∷ cs) ((_, pos), _) (below, _) =
      let no = leb_trans c.1 minus_one zero below minus_one-le-zero in cc (pos, no)

  preferred_locale_lem :
      (header : Text)
      → preferred_locale case n header ≡ (consider_parts case n first_best (entries header)).locale
  unfolding preferred_locale
  preferred_locale_lem header = refl

  preferred_locale_eq :
      (header : Text)
      → preferred_locale case n header
        ≡ (choose case n first_best (candidates case n (entries header))).locale
  preferred_locale_eq header =
      preferred_locale_lem header
      ∙ ap (λ (b : Best case n). b.locale) (choose-candidates case n first_best (entries header))

  -- The negotiated locale is the default if no entry of the header offers a shipped language at
  -- a quality above zero; otherwise it is the locale of such an entry with no entry before it of
  -- as high a quality and none after it of a higher one.
  pub preferred_locale-IsPreferred :
      (header : Text) → IsPreferred header (preferred_locale case n header)
  preferred_locale-IsPreferred header =
      let cs = candidates case n (entries header) in
      let e = preferred_locale_eq header in
      elim (choose_lem case n cs first_best minus_one_finite
        (candidates-IsOffer (entries header))) [
          | inl (kept, lower) ↦ inl (
            kept_nil cs (candidates-IsOffer (entries header)) lower,
            e ∙ ap (λ (b : Best case n). b.locale) kept,
          )
          | inr r ↦ inr (r.quality, rw (e ∙ ap (λ (b : Best case n). b.locale) r.chosen) r.first)
        ]

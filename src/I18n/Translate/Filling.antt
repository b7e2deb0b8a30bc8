-- ===== src/I18n/Translate/Filling.antt =====
-- Templates and placeholders of `interpolate`.
use purels.Base.{
  All, List, Option, [], ap, append-nil, append_assoc, false, refl, true, ℕ, ◌++◌, ◌==◌, ◌∙◌, ◌∷◌,
  ◌≡◌,
}
use purels.I18n.Translate.{filled, inside, interpolate, is_word, outside, value_or_match}
use purels.Js.Text.{Text, is_empty}

-- A template as its author reads it: text with no brace, and placeholders.
pub data Segment : Type 0 where
  copied : ℕ → Segment
  placeholder : Text → Segment

abbrev pub IsSegment : Segment → Type 0
IsSegment (copied c) = (c == b'{') ≡ false
IsSegment (placeholder name) = (is_empty name ≡ false) × All (λ c. is_word c ≡ true) name

abbrev pub template : List Segment → Text
template [] = []
template (copied c ∷ ps) = c ∷ template ps
template (placeholder name ∷ ps) = b'{' ∷ (name ++ (b'}' ∷ template ps))

abbrev pub fill : (Text → Option Text) → List Segment → Text
fill f [] = []
fill f (copied c ∷ ps) = c ∷ fill f ps
fill f (placeholder name ∷ ps) = value_or_match (f name) name ++ fill f ps

is_empty-append_right : (s : Text) (c : ℕ) → is_empty (s ++ (c ∷ [])) ≡ false
is_empty-append_right [] c = refl
is_empty-append_right (d ∷ s) c = refl

is_empty-append_left : (s t : Text) → is_empty s ≡ false → is_empty (s ++ t) ≡ false
is_empty-append_left [] t h = cc
is_empty-append_left (d ∷ s) t h = refl

module _ (f : Text → Option Text) where
  interpolate_close :
      (name rest : Text)
      → is_empty name ≡ false
      → interpolate f (inside name) (b'}' ∷ rest)
        ≡ value_or_match (f name) name ++ interpolate f outside rest
  unfolding interpolate
  interpolate_close name rest h = rw h

  interpolate_word :
      (name : Text) (c : ℕ) (rest : Text)
      → is_word c ≡ true
      → interpolate f (inside name) (c ∷ rest) ≡ interpolate f (inside (name ++ (c ∷ []))) rest
  unfolding interpolate
  interpolate_word name c rest h = rw h

  interpolate_name :
      (seen name rest : Text)
      → All (λ c. is_word c ≡ true) name
      → is_empty (seen ++ name) ≡ false
      → interpolate f (inside seen) (name ++ (b'}' ∷ rest))
        ≡ value_or_match (f (seen ++ name)) (seen ++ name) ++ interpolate f outside rest
  interpolate_name seen [] rest h filled =
      let e = append-nil seen in rw e (interpolate_close seen rest (rw e at filled))
  interpolate_name seen (c ∷ name) rest (h, hs) filled =
      let e = append_assoc seen (c ∷ []) name in
      interpolate_word seen c (name ++ (b'}' ∷ rest)) h
      ∙ interpolate_name (seen ++ (c ∷ [])) name rest hs (ap is_empty e ∙ filled)
      ∙ rw e

  -- A template of text without opening braces and of placeholders named by word characters comes
  -- out with each placeholder replaced by its parameter, or kept as written where it has none,
  -- and with all other text unchanged.
  pub interpolate-template :
      (ps : List Segment) → All IsSegment ps → interpolate f outside (template ps) ≡ fill f ps
  unfolding interpolate
  interpolate-template [] h = refl
  interpolate-template (copied c ∷ ps) (h, hs) = rw h (ap (◌∷◌ c) (interpolate-template ps hs))
  interpolate-template (placeholder name ∷ ps) ((filled, h), hs) =
      interpolate_name [] name (template ps) h filled
      ∙ ap (◌++◌ (value_or_match (f name) name)) (interpolate-template ps hs)

  -- A text with no opening brace is copied, whatever the parameters.
  pub interpolate_plain :
      (s : Text) → All (λ c. (c == b'{') ≡ false) s → interpolate f outside s ≡ s
  unfolding interpolate
  interpolate_plain [] h = refl
  interpolate_plain (c ∷ s) (h, hs) = rw h (ap (◌∷◌ c) (interpolate_plain s hs))

-- ===== src/Analytics/Script/Decoding.antt =====
-- The escaped literal of the inline script, read back (lib/analytics-script.ts).

-- The units that the escaping removes.
use purels.Analytics.Script.{escape_markup, json_for_script, replace_unit}
use purels.Base.{
  All, All-append, Bool-cases, Option, [], ap, append-nil, append_assoc, arith, if◌then◌else◌, inl,
  inr, ltb, none, refl, some, sym, within, ℕ, ◌%◌, ◌&&◌, ◌++◌, ◌/◌, ◌<◌, ◌==◌, ◌||◌, ◌∙◌, ◌∷◌, ◌≡◌,
  ◌≢◌, ◌≤◌, ◌⊎◌,
}
use purels.Js.Json.{
  hex, is_high, is_low, json_string, quote_by, quote_unit, quote_units, short_escape,
  unicode_escape,
}
use purels.Js.Json.Literal.{decode, plain, run}
use purels.Js.Json.RoundTrip.{
  IsUnit, decode_opening, run-quote_by, run-unicode_escape, run_closing, run_plain,
  short_escape-none,
}
use purels.Js.Text.{Text}

abbrev pub IsInert : ℕ → Type 0
IsInert c = (c ≢ b'<') × (c ≢ b'>') × (c ≢ b'&') × (c ≢ 0x2028) × (c ≢ 0x2029)

replace_unit-append :
    (m : ℕ) (w s t : Text) → replace_unit m w (s ++ t) ≡ replace_unit m w s ++ replace_unit m w t
unfolding replace_unit
replace_unit-append m w [] t = refl
replace_unit-append m w (c ∷ s) t =
    ap (λ r. (if c == m then w else c ∷ []) ++ r) (replace_unit-append m w s t)
    ∙ sym (append_assoc (if c == m then w else c ∷ []) (replace_unit m w s) (replace_unit m w t))

escape_markup-append : (s t : Text) → escape_markup (s ++ t) ≡ escape_markup s ++ escape_markup t
unfolding escape_markup
escape_markup-append s t = simp replace_unit-append

escape_markup_inert : (c : ℕ) → IsInert c → escape_markup (c ∷ []) ≡ c ∷ []
unfolding escape_markup
escape_markup_inert c h = ground arith

escape_markup_nil : escape_markup [] ≡ []
unfolding escape_markup
escape_markup_nil = refl

-- A unit is inert or one of the five.
abbrev Markup : ℕ → Type 0
Markup c = (c ≡ b'<') ⊎ (c ≡ b'>') ⊎ (c ≡ b'&') ⊎ (c ≡ 0x2028) ⊎ (c ≡ 0x2029)

Markup-cases : (c : ℕ) → IsInert c ⊎ Markup c
Markup-cases c = ground arith

escape_markup-Markup : (c : ℕ) → Markup c → escape_markup (c ∷ []) ≡ unicode_escape c
unfolding escape_markup
escape_markup-Markup c (inl e) = rw e
escape_markup-Markup c (inr (inl e)) = rw e
escape_markup-Markup c (inr (inr (inl e))) = rw e
escape_markup-Markup c (inr (inr (inr (inl e)))) = rw e
escape_markup-Markup c (inr (inr (inr (inr e)))) = rw e

hex-IsInert : (d : ℕ) → d < 16 → IsInert (hex d)
hex-IsInert d h = ground arith

All-unicode_escape : (c : ℕ) → All IsInert (unicode_escape c)
All-unicode_escape c = (
  omega arith,
  (
    omega arith,
    (
      hex-IsInert (c / 4096 % 16) (omega arith),
      (
        hex-IsInert (c / 256 % 16) (omega arith),
        (hex-IsInert (c / 16 % 16) (omega arith), (hex-IsInert (c % 16) (omega arith), tt)),
      ),
    ),
  ),
)

escape_markup_of_All : (s : Text) → All IsInert s → escape_markup s ≡ s
escape_markup_of_All [] h = escape_markup_nil
escape_markup_of_All (c ∷ s) (h, hs) =
    escape_markup-append (c ∷ []) s ∙ rw (escape_markup_inert c h, escape_markup_of_All s hs)

All-escape_unit : (c : ℕ) → All IsInert (escape_markup (c ∷ []))
All-escape_unit c = elim (Markup-cases c) [
  | inl h ↦ rw (escape_markup_inert c h) (h, tt)
  | inr m ↦ rw (escape_markup-Markup c m) (All-unicode_escape c)
]

-- No unit of the result can open a tag or an entity, or end a line of the script.
pub All-escape_markup : (s : Text) → All IsInert (escape_markup s)
All-escape_markup [] = rw escape_markup_nil tt
All-escape_markup (c ∷ s) = rw (escape_markup-append (c ∷ []) s) (
    All-append IsInert (escape_markup (c ∷ [])) (escape_markup s) (All-escape_unit c)
      (All-escape_markup s))

escape_markup_cons : (c : ℕ) (s : Text) → IsInert c → escape_markup (c ∷ s) ≡ c ∷ escape_markup s
escape_markup_cons c s h = escape_markup-append (c ∷ []) s ∙ rw (escape_markup_inert c h)

short_escape-IsInert : (c e : ℕ) → short_escape c ≡ some e → IsInert e
unfolding short_escape
short_escape-IsInert c e h = ground arith

run-escaped_plain :
    (c : ℕ) (out rest : Text)
    → IsUnit c
    → (c ≢ b'"') × (c ≢ b'\\')
    → 32 ≤ c
    → run plain out (escape_markup (c ∷ []) ++ rest) ≡ run plain (out ++ (c ∷ [])) rest
run-escaped_plain c out rest h k l = elim (Markup-cases c) [
  | inl i ↦ rw (escape_markup_inert c i) (run_plain c out rest k.0 k.1 l)
  | inr m ↦ rw (escape_markup-Markup c m) (run-unicode_escape c out rest h)
]

run-escaped_by :
    (o : Option ℕ) (c : ℕ) (out rest : Text)
    → IsUnit c
    → short_escape c ≡ o
    → run plain out (escape_markup (quote_by o c) ++ rest) ≡ run plain (out ++ (c ∷ [])) rest
unfolding quote_by
run-escaped_by (some d) c out rest h e =
    rw (escape_markup_of_All (b'\\' ∷ d ∷ []) (omega arith, (short_escape-IsInert c d e, tt)))
      (run-quote_by (some d) c out rest h e)
run-escaped_by none c out rest h e = elim (Bool-cases (ltb c 32 || within 0xD800 0xDFFF c)) [
  | inl u ↦ rw u (
      rw (escape_markup_of_All (unicode_escape c) (All-unicode_escape c))
        (run-unicode_escape c out rest h))
  | inr u ↦ rw u (run-escaped_plain c out rest h (short_escape-none c e) (ground arith))
]

run-escaped_unit :
    (c : ℕ) (out rest : Text)
    → IsUnit c
    → run plain out (escape_markup (quote_unit c) ++ rest) ≡ run plain (out ++ (c ∷ [])) rest
unfolding quote_unit
run-escaped_unit c out rest h = run-escaped_by (short_escape c) c out rest h refl

run-escaped_units :
    (s out rest : Text)
    → All IsUnit s
    → run plain out (escape_markup (quote_units s) ++ rest) ≡ run plain (out ++ s) rest
unfolding quote_units
run-escaped_units [] out rest h = rw (escape_markup_nil, append-nil)
run-escaped_units (c ∷ []) out rest h = run-escaped_unit c out rest h.0
run-escaped_units (c ∷ d ∷ s) out rest (h, (k, hs)) = elim (Bool-cases (is_high c && is_low d)) [
  | inl pair ↦ rw pair (
      rw
        (
          escape_markup_cons c (d ∷ quote_units s) (ground arith),
          escape_markup_cons d (quote_units s) (ground arith),
        )
        (run_plain c out _ (ground arith) (ground arith) (ground arith)
          ∙ run_plain d (out ++ (c ∷ [])) _ (ground arith) (ground arith) (ground arith)
          ∙ run-escaped_units s ((out ++ (c ∷ [])) ++ (d ∷ [])) rest hs
          ∙ simp append_assoc))
  | inr single ↦ rw single (
      rw (escape_markup-append (quote_unit c) (quote_units (d ∷ s)), append_assoc)
        (run-escaped_unit c out (escape_markup (quote_units (d ∷ s)) ++ rest) h
          ∙ run-escaped_units (d ∷ s) (out ++ (c ∷ [])) rest (k, hs)
          ∙ simp append_assoc))
]

json_for_script_parts :
    (value : Text)
    → json_for_script value ≡ escape_markup (b'"' ∷ (quote_units value ++ (b'"' ∷ [])))
unfolding json_for_script json_string
json_for_script_parts value = refl

json_for_script_lem :
    (value : Text)
    → json_for_script value ≡ b'"' ∷ (escape_markup (quote_units value) ++ (b'"' ∷ []))
json_for_script_lem value =
    json_for_script_parts value
    ∙ escape_markup_cons b'"' (quote_units value ++ (b'"' ∷ [])) (omega arith)
    ∙ rw (
      escape_markup-append (quote_units value) (b'"' ∷ []),
      escape_markup_of_All (b'"' ∷ []) (omega arith),
    )

-- The literal that is written into a script denotes the value itself, for every value made of
-- UTF-16 code units: escaping loses nothing.
pub decode-json_for_script :
    (value : Text) → All IsUnit value → decode (json_for_script value) ≡ some value
decode-json_for_script value h =
    rw (json_for_script_lem value)
      (decode_opening _ ∙ run-escaped_units value [] (b'"' ∷ []) h ∙ run_closing value)

pub All-json_for_script : (value : Text) → All IsInert (json_for_script value)
unfolding json_for_script
All-json_for_script value = All-escape_markup (json_string value)

-- ===== src/Js/Json/RoundTrip.antt =====
-- Reading back what `JSON.stringify` wrote for a string.

-- A code unit.
use purels.Base.{
  All, Bool-cases, Option, [], ap, append-nil, append_assoc, arith, inl, inr, ltb, none, refl, some,
  within, ℕ, ◌&&◌, ◌++◌, ◌<◌, ◌||◌, ◌∙◌, ◌∷◌, ◌≡◌, ◌≢◌, ◌≤◌,
}
use purels.Js.Json.{
  is_high, is_low, json_string, quote_by, quote_unit, quote_units, short_escape, unicode_escape,
}
use purels.Js.Json.Literal.{decode, plain, run, step, unescape}
use purels.Js.Text.{Text}

abbrev pub IsUnit : ℕ → Type 0
IsUnit c = c < 0x10000

pub run-unicode_escape :
    (c : ℕ) (out rest : Text)
    → IsUnit c
    → run plain out (unicode_escape c ++ rest) ≡ run plain (out ++ (c ∷ [])) rest
unfolding run
run-unicode_escape c out rest h = ground arith

-- What the reader makes of a short escape is the unit that was escaped.
short_escape-unescape : (c e : ℕ) → short_escape c ≡ some e → (unescape e ≡ some c) × (e ≢ b'u')
unfolding unescape short_escape
short_escape-unescape c e h = ground arith

pub short_escape-none : (c : ℕ) → short_escape c ≡ none → (c ≢ b'"') × (c ≢ b'\\')
unfolding short_escape
short_escape-none c h = ground arith

run-short :
    (c e : ℕ) (out rest : Text)
    → unescape e ≡ some c
    → e ≢ b'u'
    → run plain out (b'\\' ∷ e ∷ rest) ≡ run plain (out ++ (c ∷ [])) rest
unfolding run step
run-short c e out rest h k = ground arith

pub run_plain :
    (c : ℕ) (out rest : Text)
    → c ≢ b'"'
    → c ≢ b'\\'
    → 32 ≤ c
    → run plain out (c ∷ rest) ≡ run plain (out ++ (c ∷ [])) rest
unfolding run step
run_plain c out rest h k l = ground arith

run-quote_none :
    (c : ℕ) (out rest : Text)
    → IsUnit c
    → (c ≢ b'"') × (c ≢ b'\\')
    → run plain out (quote_by none c ++ rest) ≡ run plain (out ++ (c ∷ [])) rest
unfolding quote_by
run-quote_none c out rest h k = elim (Bool-cases (ltb c 32 || within 0xD800 0xDFFF c)) [
  | inl e ↦ rw e (run-unicode_escape c out rest h)
  | inr e ↦ rw e (run_plain c out rest k.0 k.1 (ground arith))
]

pub run-quote_by :
    (o : Option ℕ) (c : ℕ) (out rest : Text)
    → IsUnit c
    → short_escape c ≡ o
    → run plain out (quote_by o c ++ rest) ≡ run plain (out ++ (c ∷ [])) rest
run-quote_by none c out rest h e = run-quote_none c out rest h (short_escape-none c e)
run-quote_by (some d) c out rest h e =
    let (back, ne) = short_escape-unescape c d e in
    unfold quote_by in run-short c d out rest back ne

pub run-quote_unit :
    (c : ℕ) (out rest : Text)
    → IsUnit c
    → run plain out (quote_unit c ++ rest) ≡ run plain (out ++ (c ∷ [])) rest
unfolding quote_unit
run-quote_unit c out rest h = run-quote_by (short_escape c) c out rest h refl

pub run-quote_units :
    (s out rest : Text)
    → All IsUnit s
    → run plain out (quote_units s ++ rest) ≡ run plain (out ++ s) rest
unfolding quote_units
run-quote_units [] out rest h = rw append-nil
run-quote_units (c ∷ []) out rest h = run-quote_unit c out rest h.0
run-quote_units (c ∷ d ∷ s) out rest (h, (k, hs)) = elim (Bool-cases (is_high c && is_low d)) [
  | inl pair ↦ rw pair (
      run_plain c out _ (ground arith) (ground arith) (ground arith)
      ∙ run_plain d (out ++ (c ∷ [])) _ (ground arith) (ground arith) (ground arith)
      ∙ run-quote_units s ((out ++ (c ∷ [])) ++ (d ∷ [])) rest hs
      ∙ simp append_assoc)
  | inr single ↦ rw single (
      ap (run plain out) (append_assoc (quote_unit c) (quote_units (d ∷ s)) rest)
      ∙ run-quote_unit c out (quote_units (d ∷ s) ++ rest) h
      ∙ run-quote_units (d ∷ s) (out ++ (c ∷ [])) rest (k, hs)
      ∙ simp append_assoc)
]

pub run_closing : (s : Text) → run plain s (b'"' ∷ []) ≡ some s
unfolding run
run_closing s = refl

pub decode_opening : (s : Text) → decode (b'"' ∷ s) ≡ run plain [] s
unfolding decode
decode_opening s = refl

-- A string of code units is what its JSON denotes.
pub decode-json_string : (s : Text) → All IsUnit s → decode (json_string s) ≡ some s
unfolding json_string
decode-json_string s h = decode_opening _ ∙ run-quote_units s [] (b'"' ∷ []) h ∙ run_closing s

-- ===== src/Js/Decimal.antt =====
-- `String(n)` of a natural number, and reading it back.
use purels.Base.{
  Bool-cases, [], ap, arith, false, if◌then◌else◌, inl, inr, ltb, refl, suc, sym, zero, ℕ, ◌%◌, ◌*◌,
  ◌++◌, ◌+◌, ◌-◌, ◌/◌, ◌<◌, ◌∙◌, ◌∷◌, ◌≡◌,
}
use purels.Js.Text.{Text, is_empty}

digits : ℕ → ℕ → Text
digits zero n = []
digits (suc fuel) n =
    let more = digits fuel (n / 10) in
    if ltb n 10 then (48 + n) ∷ [] else more ++ ((48 + n % 10) ∷ [])

-- The fuel is enough, since each round divides by ten.
unfoldable pub decimal : ℕ → Text
unfolding digits
decimal n = digits (suc n) n

read_from : ℕ → Text → ℕ
read_from acc [] = acc
read_from acc (c ∷ cs) = read_from (acc * 10 + (c - 48)) cs

unfoldable pub read_decimal : Text → ℕ
unfolding read_from
read_decimal s = read_from 0 s

read_from-concat :
    (s : Text) (acc c : ℕ) → read_from acc (s ++ (c ∷ [])) ≡ read_from acc s * 10 + (c - 48)
unfolding read_from
read_from-concat [] acc c = refl
read_from-concat (d ∷ s) acc c = read_from-concat s (acc * 10 + (d - 48)) c

read_from-digits : (fuel n : ℕ) → n < fuel → read_from 0 (digits fuel n) ≡ n
unfolding digits
read_from-digits zero n h = elim h [ ]
read_from-digits (suc fuel) n h = elim (Bool-cases (ltb n 10)) [
  | inl small ↦ rw small (unfold read_from in ground arith)
  | inr large ↦
      let ih = read_from-digits fuel (n / 10) (ground arith) in
      rw large (read_from-concat (digits fuel (n / 10)) 0 (48 + n % 10) ∙ omega (arith, ih))
]

pub read_decimal-decimal : (n : ℕ) → read_decimal (decimal n) ≡ n
unfolding read_decimal decimal
read_decimal-decimal n = read_from-digits (suc n) n (omega arith)

pub decimal_injective : (a b : ℕ) → decimal a ≡ decimal b → a ≡ b
decimal_injective a b h = sym (read_decimal-decimal a) ∙ ap read_decimal h ∙ read_decimal-decimal b

pub decimal_filled : (n : ℕ) → is_empty (decimal n) ≡ false
unfolding decimal digits
decimal_filled n = elim (Bool-cases (ltb n 10)) [
  | inl small ↦ rw small
  | inr large ↦ rw large (append_filled (digits n (n / 10)) (48 + n % 10))
]
  where
    append_filled : (s : Text) (c : ℕ) → is_empty (s ++ (c ∷ [])) ≡ false
    append_filled [] c = refl
    append_filled (d ∷ s) c = refl

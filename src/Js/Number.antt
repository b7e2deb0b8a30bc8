-- ===== src/Js/Number.antt =====
-- The numbers of the language: doubles and their conversions are the language's own, so they are a
-- parameter, with the laws of ECMA-262 that the theorems use.
use purels.Base.{Bool, false, true, ◌≡◌}
use purels.Js.Text.{Text, is_empty}

pub record Numbers : Type 1 where
  pub Num : Type 0
  -- `Number(s)`, `String(n)`, `Number.isFinite`, `Number.isSafeInteger`, `a <= b`, `a === 1`.
  pub number : Text → Num
  pub to_text : Num → Text
  pub is_finite : Num → Bool
  pub is_safe_integer : Num → Bool
  pub num_leb : Num → Num → Bool
  pub is_one : Num → Bool
  pub minus_one : Num
  pub zero : Num
  pub one : Num
  -- A number is read back from its text, up to the sign of zero.
  pub to_text-number : (n : Num) → to_text (number (to_text n)) ≡ to_text n
  pub is_safe_integer-number : (n : Num) → is_safe_integer (number (to_text n)) ≡ is_safe_integer n
  pub to_text_filled : (n : Num) → is_empty (to_text n) ≡ false
  -- Finite numbers are ordered, and -1 < 0 < 1.
  pub finite_total :
      (a b : Num)
      → is_finite a ≡ true
      → is_finite b ≡ true
      → num_leb a b ≡ false
      → num_leb b a ≡ true
  pub leb_trans : (a b c : Num) → num_leb a b ≡ true → num_leb b c ≡ true → num_leb a c ≡ true
  pub minus_one_finite : is_finite minus_one ≡ true
  pub one_finite : is_finite one ≡ true
  pub zero_finite : is_finite zero ≡ true
  pub minus_one-le-zero : num_leb minus_one zero ≡ true

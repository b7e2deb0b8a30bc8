-- ===== src/Tests/Counting.antt =====
-- Numbers for the examples: the naturals in their decimal texts, -1, and one value that is no number.
use purels.Base.{Bool, ap, arith, false, if◌then◌else◌, leb, refl, true, ℕ, ◌==◌, ◌≡◌}
use purels.Js.Decimal.{decimal, decimal_filled, read_decimal, read_decimal-decimal}
use purels.Js.Number.{Numbers}
use purels.Js.Text.{Text, is_empty, same, text}
use purels.Js.Text.Equality.{same_refl}

pub data Number : Type 0 where
  not_a_number : Number
  below_zero : Number
  natural : ℕ → Number

abbrev pub read_number : Text → Number
read_number s =
    if same (decimal (read_decimal s)) s
    then natural (read_decimal s)
    else if same s (text "-1")
    then below_zero
    else not_a_number

abbrev pub number_text : Number → Text
number_text not_a_number = text "NaN"
number_text below_zero = text "-1"
number_text (natural k) = decimal k

abbrev pub finite : Number → Bool
finite not_a_number = false
finite _ = true

abbrev pub safe_integer : Number → Bool
safe_integer not_a_number = false
safe_integer below_zero = true
safe_integer (natural k) = leb k 9007199254740991

abbrev pub number_leb : Number → Number → Bool
number_leb below_zero below_zero = true
number_leb below_zero (natural k) = true
number_leb (natural j) (natural k) = leb j k
number_leb _ _ = false

abbrev pub unit_number : Number → Bool
unit_number (natural k) = k == 1
unit_number _ = false

read_number-decimal : (k : ℕ) → read_number (decimal k) ≡ natural k
read_number-decimal k = rw (read_decimal-decimal k, same_refl (decimal k))

pub number_text-read_number :
    (a : Number) → number_text (read_number (number_text a)) ≡ number_text a
number_text-read_number not_a_number = unfold same decimal read_decimal in refl
number_text-read_number below_zero = unfold same decimal read_decimal in refl
number_text-read_number (natural k) = ap number_text (read_number-decimal k)

pub safe_integer-read_number :
    (a : Number) → safe_integer (read_number (number_text a)) ≡ safe_integer a
safe_integer-read_number not_a_number = unfold same decimal read_decimal in refl
safe_integer-read_number below_zero = unfold same decimal read_decimal in refl
safe_integer-read_number (natural k) = ap safe_integer (read_number-decimal k)

pub number_text_filled : (a : Number) → is_empty (number_text a) ≡ false
number_text_filled not_a_number = refl
number_text_filled below_zero = refl
number_text_filled (natural k) = decimal_filled k

pub number_total :
    (a b : Number)
    → finite a ≡ true
    → finite b ≡ true
    → number_leb a b ≡ false
    → number_leb b a ≡ true
number_total not_a_number b h k e = cc
number_total a not_a_number h k e = cc
number_total below_zero below_zero h k e = cc
number_total below_zero (natural j) h k e = cc
number_total (natural i) below_zero h k e = refl
number_total (natural i) (natural j) h k e = ground arith

pub number_leb_trans :
    (a b c : Number) → number_leb a b ≡ true → number_leb b c ≡ true → number_leb a c ≡ true
number_leb_trans not_a_number b c h k = cc
number_leb_trans below_zero not_a_number c h k = cc
number_leb_trans (natural i) not_a_number c h k = cc
number_leb_trans (natural i) below_zero c h k = cc
number_leb_trans below_zero b below_zero h k = refl
number_leb_trans below_zero b (natural j) h k = refl
number_leb_trans below_zero below_zero not_a_number h k = k
number_leb_trans below_zero (natural i) not_a_number h k = cc
number_leb_trans (natural i) (natural j) not_a_number h k = cc
number_leb_trans (natural i) (natural j) below_zero h k = cc
number_leb_trans (natural i) (natural j) (natural k') h k = ground arith

abbrev pub counting : Numbers
counting = record {
  Num = Number;
  number = read_number;
  to_text = number_text;
  is_finite = finite;
  is_safe_integer = safe_integer;
  num_leb = number_leb;
  is_one = unit_number;
  minus_one = below_zero;
  zero = natural 0;
  one = natural 1;
  to_text-number = number_text-read_number;
  is_safe_integer-number = safe_integer-read_number;
  to_text_filled = number_text_filled;
  finite_total = number_total;
  leb_trans = number_leb_trans;
  minus_one_finite = refl;
  one_finite = refl;
  zero_finite = refl;
  minus_one-le-zero = refl;
}

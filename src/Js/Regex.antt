-- ===== src/Js/Regex.antt =====
-- Regular expressions anchored at both ends, `/^…$/`, as `RegExp.prototype.test` runs them.
pub mod Meaning
use purels.Base.{Bool, [], false, if◌then◌else◌, suc, true, zero, ℕ, ◌&&◌, ◌==◌, ◌||◌, ◌∷◌}
use purels.Js.Text.{Text}

pub data Regex : Type 0 where
  never : Regex
  eps : Regex
  cls : (ℕ → Bool) → Regex
  seq : Regex → Regex → Regex
  alt : Regex → Regex → Regex
  star : Regex → Regex

-- Whether the empty text is accepted.
unfoldable pub nullable : Regex → Bool
nullable never = false
nullable eps = true
nullable (cls p) = false
nullable (seq a b) = nullable a && nullable b
nullable (alt a b) = nullable a || nullable b
nullable (star a) = true

-- What is left to accept after the unit.
unfoldable pub deriv : ℕ → Regex → Regex
unfolding nullable
deriv c never = never
deriv c eps = never
deriv c (cls p) = if p c then eps else never
deriv c (seq a b) = if nullable a then alt (seq (deriv c a) b) (deriv c b) else seq (deriv c a) b
deriv c (alt a b) = alt (deriv c a) (deriv c b)
deriv c (star a) = seq (deriv c a) (star a)

-- `/^r$/.test(s)`.
unfoldable pub test : Regex → Text → Bool
unfolding nullable deriv
test r [] = nullable r
test r (c ∷ cs) = test (deriv c r) cs

abbrev pub unit : ℕ → Regex
unit c = cls (λ d. d == c)

-- A literal, `(?:r)?`, and `r{lo,hi}` as `lo` copies and `extra` optional ones.
abbrev pub lit : Text → Regex
lit [] = eps
lit (c ∷ cs) = seq (unit c) (lit cs)

abbrev pub opt : Regex → Regex
opt r = alt eps r

abbrev pub up_to : ℕ → Regex → Regex
up_to zero r = eps
up_to (suc n) r = opt (seq r (up_to n r))

abbrev pub rep : ℕ → ℕ → Regex → Regex
rep zero extra r = up_to extra r
rep (suc n) extra r = seq r (rep n extra r)

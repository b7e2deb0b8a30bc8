-- ===== src/Js/Json/Literal.antt =====
-- A reader of JSON string literals, written from the grammar: an escape stands for one unit, and
-- the literal ends at the first quote that is not escaped.

use purels.Base.{
  Option, [], if◌then◌else◌, ltb, none, some, suc, within, zero, ℕ, ◌*◌, ◌++◌, ◌+◌, ◌-◌, ◌==◌, ◌||◌,
  ◌∷◌,
}
use purels.Js.Text.{Text}

pub data Mode : Type 0 where
  opening plain escaped : Mode
  -- Digits still to come after the next one, and the value of those read.
  unicode : ℕ → ℕ → Mode
  closed : Mode

unfoldable pub unhex : ℕ → Option ℕ
unhex c =
    if within b'0' b'9' c
    then some (c - 48)
    else if within b'a' b'f' c
    then some (c - 87)
    else if within b'A' b'F' c
    then some (c - 55)
    else none

-- The unit that a one-letter escape stands for.
unfoldable pub unescape : ℕ → Option ℕ
unescape c =
    if c == b'"' || c == b'\\' || c == b'/'
    then some c
    else if c == b'b'
    then some 8
    else if c == b't'
    then some 9
    else if c == b'n'
    then some 10
    else if c == b'f'
    then some 12
    else if c == b'r'
    then some 13
    else none

infixl 5 ◌>>=◌
abbrev pub ◌>>=◌ {ℓ κ} : {A : Type ℓ} {B : Type κ} → Option A → (A → Option B) → Option B
none >>= k = none
some a >>= k = k a

unfoldable pub step : Mode → Text → ℕ → Option (Mode × Text)
unfolding unhex unescape
step opening out c = if c == b'"' then some (plain, out) else none
step plain out c =
    if c == b'"'
    then some (closed, out)
    else if c == b'\\'
    then some (escaped, out)
    else if ltb c 32
    then none
    else some (plain, out ++ (c ∷ []))
step escaped out c =
    if c == b'u' then some (unicode 3 0, out) else do d ← unescape c; some (plain, out ++ (d ∷ []))
step (unicode zero v) out c = do d ← unhex c; some (plain, out ++ ((16 * v + d) ∷ []))
step (unicode (suc k) v) out c = do d ← unhex c; some (unicode k (16 * v + d), out)
step closed out c = none

unfoldable pub finish : Mode → Text → Option Text
finish closed out = some out
finish _ out = none

unfoldable pub run : Mode → Text → Text → Option Text
unfolding step finish
run m out [] = finish m out
run m out (c ∷ cs) = do next ← step m out c; run next.0 next.1 cs

-- The string that a whole literal denotes.
unfoldable pub decode : Text → Option Text
unfolding run
decode s = run opening [] s

-- ===== src/Js/Text/Equality.antt =====
-- Comparisons of texts decide what they are to decide.

use purels.Base.{List, [], arith, refl, true, ◌++◌, ◌↔◌, ◌∷◌, ◌≡◌, ◌⊎◌}
use purels.Js.Text.{Text, includes, is_empty, same, starts_with}

pub same_iff : (s t : Text) → (same s t ≡ true) ↔ (s ≡ t)
unfolding same
same_iff (a ∷ s) (b ∷ t) = ground (arith, same_iff s t)
same_iff _ _ = ground arith

pub same_refl : (s : Text) → same s s ≡ true
same_refl s = (same_iff s s).1 refl

pub is_empty_iff : (s : Text) → (is_empty s ≡ true) ↔ (s ≡ [])
is_empty_iff [] = ground arith
is_empty_iff (c ∷ s) = ground arith

-- Membership by recursion.
abbrev pub In : Text → List Text → Type 0
In s [] = ⊥
In s (x ∷ xs) = (x ≡ s) ⊎ In s xs

pub includes_iff : (xs : List Text) (s : Text) → (includes xs s ≡ true) ↔ In s xs
unfolding includes
includes_iff [] s = ground arith
includes_iff (x ∷ xs) s = ground (arith, same_iff x s, includes_iff xs s)

pub starts_with-append : (p s : Text) → starts_with p (p ++ s) ≡ true
unfolding starts_with
starts_with-append [] s = refl
starts_with-append (c ∷ p) s = ground (arith, starts_with-append p s)

pub starts_with_iff : (p s : Text) → starts_with p s ≡ true → (r : Text) × (s ≡ p ++ r)
unfolding starts_with
starts_with_iff [] s h = (s, refl)
starts_with_iff (c ∷ p) [] h = cc
starts_with_iff (c ∷ p) (d ∷ s) h =
    let (r, e) = starts_with_iff p s (ground arith) in (r, ground arith)

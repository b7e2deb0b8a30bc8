-- ===== src/Js/Text/Trimming.antt =====
-- What trimming leaves, and what it does not change.

use purels.Base.{All, Bool, Bool-cases, [], arith, false, inl, inr, refl, ℕ, ◌&&◌, ◌∷◌, ◌≡◌}
use purels.Js.Text.{Text, is_empty, is_space, trim, trim_end_by, trim_start_by}
use purels.Js.Text.Equality.{is_empty_iff}

module _ (p : ℕ → Bool) where
  -- Neither end of the text passes the test.
  abbrev pub HasHead : Text → Type 0
  HasHead [] = Unit
  HasHead (c ∷ cs) = p c ≡ false

  abbrev pub HasLast : Text → Type 0
  HasLast [] = Unit
  HasLast (c ∷ []) = p c ≡ false
  HasLast (c ∷ d ∷ cs) = HasLast (d ∷ cs)

  pub HasHead-trim_start_by : (s : Text) → HasHead (trim_start_by p s)
  unfolding trim_start_by
  HasHead-trim_start_by [] = tt
  HasHead-trim_start_by (c ∷ s) = ground (arith, HasHead-trim_start_by s)

  pub HasHead-trim_end_by : (s : Text) → HasHead s → HasHead (trim_end_by p s)
  unfolding trim_end_by
  HasHead-trim_end_by [] h = tt
  HasHead-trim_end_by (c ∷ s) h = ground arith

  HasLast-cons : (c : ℕ) (s : Text) → HasLast s → (s ≡ [] → p c ≡ false) → HasLast (c ∷ s)
  HasLast-cons c [] h k = k refl
  HasLast-cons c (d ∷ s) h k = h

  pub HasLast-trim_end_by : (s : Text) → HasLast (trim_end_by p s)
  unfolding trim_end_by
  HasLast-trim_end_by [] = tt
  HasLast-trim_end_by (c ∷ s) = elim (Bool-cases (p c && is_empty (trim_end_by p s))) [
    | inl gone ↦ rw gone tt
    | inr kept ↦ rw kept (
        HasLast-cons c (trim_end_by p s) (HasLast-trim_end_by s)
          (λ e. ground (arith, kept, (is_empty_iff (trim_end_by p s)).1 e)))
  ]

  pub trim_start_by_of_HasHead : (s : Text) → HasHead s → trim_start_by p s ≡ s
  unfolding trim_start_by
  trim_start_by_of_HasHead [] h = refl
  trim_start_by_of_HasHead (c ∷ s) h = rw h

  pub trim_end_by_of_HasLast : (s : Text) → HasLast s → trim_end_by p s ≡ s
  unfolding trim_end_by
  trim_end_by_of_HasLast [] h = refl
  trim_end_by_of_HasLast (c ∷ []) h = rw h
  trim_end_by_of_HasLast (c ∷ d ∷ s) h = ground (arith, trim_end_by_of_HasLast (d ∷ s) h)

  -- A text without such units has none at its ends.
  pub HasHead-of_All : (s : Text) → All (λ c. p c ≡ false) s → HasHead s
  HasHead-of_All [] h = tt
  HasHead-of_All (c ∷ s) h = h.0

  pub HasLast-of_All : (s : Text) → All (λ c. p c ≡ false) s → HasLast s
  HasLast-of_All [] h = tt
  HasLast-of_All (c ∷ []) h = h.0
  HasLast-of_All (c ∷ d ∷ s) h = HasLast-of_All (d ∷ s) h.1

  pub All-trim_start_by {κ} : (P : ℕ → Type κ) (s : Text) → All P s → All P (trim_start_by p s)
  unfolding trim_start_by
  All-trim_start_by P [] h = tt
  All-trim_start_by P (c ∷ s) (h, hs) = elim (Bool-cases (p c)) [
    | inl gone ↦ rw gone (All-trim_start_by P s hs)
    | inr kept ↦ rw kept (h, hs)
  ]

  pub All-trim_end_by {κ} : (P : ℕ → Type κ) (s : Text) → All P s → All P (trim_end_by p s)
  unfolding trim_end_by
  All-trim_end_by P [] h = tt
  All-trim_end_by P (c ∷ s) (h, hs) = elim (Bool-cases (p c && is_empty (trim_end_by p s))) [
    | inl gone ↦ rw gone tt
    | inr kept ↦ rw kept (h, All-trim_end_by P s hs)
  ]

abbrev pub IsTrimmed : Text → Type 0
IsTrimmed s = HasHead is_space s × HasLast is_space s

pub trim-IsTrimmed : (s : Text) → IsTrimmed (trim s)
unfolding trim
trim-IsTrimmed s = (
  HasHead-trim_end_by is_space _ (HasHead-trim_start_by is_space s),
  HasLast-trim_end_by is_space (trim_start_by is_space s),
)

pub trim_of_IsTrimmed : (s : Text) → IsTrimmed s → trim s ≡ s
unfolding trim
trim_of_IsTrimmed s h =
    rw (trim_start_by_of_HasHead is_space s h.0) (trim_end_by_of_HasLast is_space s h.1)

pub trim-trim : (s : Text) → trim (trim s) ≡ trim s
trim-trim s = trim_of_IsTrimmed (trim s) (trim-IsTrimmed s)

pub All-trim {κ} : (P : ℕ → Type κ) (s : Text) → All P s → All P (trim s)
unfolding trim
All-trim P s h = All-trim_end_by is_space P _ (All-trim_start_by is_space P s h)

-- A text with no white space at all.
abbrev pub IsSolid : Text → Type 0
IsSolid s = All (λ c. is_space c ≡ false) s

pub trim_of_IsSolid : (s : Text) → IsSolid s → trim s ≡ s
trim_of_IsSolid s h = trim_of_IsTrimmed s (HasHead-of_All is_space s h, HasLast-of_All is_space s h)

-- ===== src/Js/Text/Splitting.antt =====
-- `split` and `join` of JavaScript strings.

use purels.Base.{
  ==_iff, All, Bool, Bool-cases, List, [], ap, false, if◌then◌else◌, inl, inr, refl, sym, true, ℕ,
  ◌++◌, ◌==◌, ◌∙◌, ◌∷◌, ◌≡◌,
}
use purels.Js.Text.{Text, is_empty, join, push_first, split_by, split_runs}

abbrev pub IsSome : List Text → Type 0
IsSome [] = ⊥
IsSome (s ∷ ps) = Unit

module _ (p : ℕ → Bool) where
  -- No unit of the text is a separator.
  abbrev pub HasNo : Text → Type 0
  HasNo s = All (λ c. p c ≡ false) s

  pub All-push_first :
      (c : ℕ) (ps : List Text) → p c ≡ false → All HasNo ps → All HasNo (push_first c ps)
  All-push_first c [] h k = ((h, tt), tt)
  All-push_first c (s ∷ ps) h (k, ks) = ((h, k), ks)

  pub split_by-HasNo : (s : Text) → All HasNo (split_by p s)
  unfolding split_by
  split_by-HasNo [] = (tt, tt)
  split_by-HasNo (c ∷ s) = elim (Bool-cases (p c)) [
    | inl sep ↦ rw sep (tt, split_by-HasNo s)
    | inr unit ↦ rw unit (All-push_first c (split_by p s) unit (split_by-HasNo s))
  ]

  pub split_runs-HasNo : (inside : Bool) (s : Text) → All HasNo (split_runs p inside s)
  unfolding split_runs
  split_runs-HasNo inside [] = (tt, tt)
  split_runs-HasNo inside (c ∷ s) = elim (Bool-cases (p c)) [
    | inl sep ↦ rw sep (run (split_runs-HasNo true s) inside)
    | inr unit ↦ rw unit (All-push_first c _ unit (split_runs-HasNo false s))
  ]
    where
      run :
          All HasNo (split_runs p true s)
          → (b : Bool) → All HasNo (if b then split_runs p true s else [] ∷ split_runs p true s)
      run h true = h
      run h false = (tt, h)

  pub split_by_of_HasNo : (s : Text) → HasNo s → split_by p s ≡ s ∷ []
  unfolding split_by
  split_by_of_HasNo [] h = refl
  split_by_of_HasNo (c ∷ s) (h, hs) = rw (h, split_by_of_HasNo s hs)

  pub split_by-append :
      (s t : Text) (sep : ℕ)
      → HasNo s
      → p sep ≡ true
      → split_by p (s ++ (sep ∷ t)) ≡ s ∷ split_by p t
  unfolding split_by
  split_by-append [] t sep h k = rw k
  split_by-append (c ∷ s) t sep (h, hs) k = rw (h, split_by-append s t sep hs k)

  -- Joining with a separator and splitting again gives back the parts.
  pub split_by-join :
      (sep : ℕ) (s : Text) (ps : List Text)
      → p sep ≡ true
      → All HasNo (s ∷ ps)
      → split_by p (join (sep ∷ []) (s ∷ ps)) ≡ s ∷ ps
  unfolding join
  split_by-join sep s [] k (h, _) = split_by_of_HasNo s h
  split_by-join sep s (t ∷ ps) k (h, hs) =
      split_by-append s _ sep h k ∙ ap (◌∷◌ s) (split_by-join sep t ps k hs)

  pub split_runs_of_HasNo : (s : Text) (b : Bool) → HasNo s → split_runs p b s ≡ s ∷ []
  unfolding split_runs
  split_runs_of_HasNo [] b h = refl
  split_runs_of_HasNo (c ∷ s) b (h, hs) = rw (h, split_runs_of_HasNo s false hs)

  abbrev pub IsFilled : Text → Type 0
  IsFilled s = (is_empty s ≡ false) × HasNo s

  pub split_runs-append :
      (s t : Text) (sep : ℕ) (b : Bool)
      → IsFilled s
      → p sep ≡ true
      → split_runs p b (s ++ (sep ∷ t)) ≡ s ∷ split_runs p true t
  unfolding split_runs
  split_runs-append [] t sep b h k = cc
  split_runs-append (c ∷ []) t sep b (_, (h, _)) k = rw (h, k)
  split_runs-append (c ∷ d ∷ s) t sep b (_, (h, hs)) k =
      rw (h, split_runs-append (d ∷ s) t sep false (refl, hs) k)

  pub split_runs-join :
      (sep : ℕ) (s : Text) (ps : List Text) (b : Bool)
      → p sep ≡ true
      → All IsFilled (s ∷ ps)
      → split_runs p b (join (sep ∷ []) (s ∷ ps)) ≡ s ∷ ps
  unfolding join
  split_runs-join sep s [] b k (h, _) = split_runs_of_HasNo s b h.1
  split_runs-join sep s (t ∷ ps) b k (h, hs) =
      split_runs-append s _ sep b h k ∙ ap (◌∷◌ s) (split_runs-join sep t ps true k hs)

split_by-IsSome : (p : ℕ → Bool) (s : Text) → IsSome (split_by p s)
unfolding split_by
split_by-IsSome p [] = tt
split_by-IsSome p (c ∷ s) = elim (Bool-cases (p c)) [
  | inl e ↦ rw e tt
  | inr e ↦ rw e (IsSome-push_first (split_by p s))
]
  where
    IsSome-push_first : (ps : List Text) → IsSome (push_first c ps)
    IsSome-push_first [] = tt
    IsSome-push_first (x ∷ ps) = tt

join-push_first :
    (sep c : ℕ) (ps : List Text) → join (sep ∷ []) (push_first c ps) ≡ c ∷ join (sep ∷ []) ps
unfolding join
join-push_first sep c [] = refl
join-push_first sep c (x ∷ []) = refl
join-push_first sep c (x ∷ y ∷ ps) = refl

join-nil :
    (sep : ℕ) (ps : List Text) → IsSome ps → join (sep ∷ []) ([] ∷ ps) ≡ sep ∷ join (sep ∷ []) ps
unfolding join
join-nil sep [] h = absurd h
join-nil sep (x ∷ ps) h = refl

-- Joining what a split gave restores the text.
pub join-split_by : (sep : ℕ) (s : Text) → join (sep ∷ []) (split_by (λ c. c == sep) s) ≡ s
unfolding split_by
join-split_by sep [] = unfold join in refl
join-split_by sep (c ∷ s) = elim (Bool-cases (c == sep)) [
  | inl e ↦ rw e (
      join-nil sep _ (split_by-IsSome (λ x. x == sep) s)
      ∙ ap (◌∷◌ sep) (join-split_by sep s)
      ∙ ap (λ x. x ∷ s) (sym ((==_iff c sep).0 e)))
  | inr e ↦ rw e (join-push_first sep c _ ∙ ap (◌∷◌ c) (join-split_by sep s))
]

-- ===== src/Navigation/Exclusive.antt =====
-- Entries that no path can be under at once; one route of the group is matched exactly.
use mathlib.Core.Path.{subst}
use purels.Base.{
  &&_true, All, Bool, Bool-cases, List, [], ap, append-nil, arith, every, every_iff, false, filter,
  if◌then◌else◌, inl, inr, length, not, refl, sym, true, ◌&&◌, ◌++◌, ◌∙◌, ◌∷◌, ◌≡◌, ◌≤◌, ◌⊎◌,
}
use purels.Js.Text.{Text, same, starts_with, text}
use purels.Js.Text.Equality.{same_iff, starts_with-append}
use purels.Navigation.{is_under}

-- Both tests at once: a path is under a route if it continues it at a slash.
abbrev slashed : Text → Text
slashed s = s ++ text "/"

starts_with_longer : (p s r : Text) → starts_with p s ≡ true → starts_with p (s ++ r) ≡ true
unfolding starts_with
starts_with_longer [] s r h = refl
starts_with_longer (c ∷ p) [] r h = cc
starts_with_longer (c ∷ p) (d ∷ s) r h = ground (arith, starts_with_longer p s r)

is_under-slashed : (t c : Text) → is_under t c ≡ true → starts_with (slashed t) (slashed c) ≡ true
is_under-slashed t c h = elim (Bool-cases (same c t)) [
  | inl e ↦
      let p = (same_iff c t).0 e in
      subst (λ x. starts_with (slashed t) (slashed x) ≡ true) (sym p) (starts_with_self (slashed t))
  | inr e ↦ starts_with_longer (slashed t) c (text "/") (rw e at h)
]
  where
    starts_with_self : (s : Text) → starts_with s s ≡ true
    starts_with_self s = ap (starts_with s) (sym (append-nil s)) ∙ starts_with-append s []

-- Of two prefixes of one text, one is a prefix of the other.
prefixes :
    (p q s : Text)
    → starts_with p s ≡ true
    → starts_with q s ≡ true
    → (starts_with p q ≡ true) ⊎ (starts_with q p ≡ true)
unfolding starts_with
prefixes [] q s h k = inl refl
prefixes (c ∷ p) [] s h k = inr refl
prefixes (c ∷ p) (d ∷ q) [] h k = cc
prefixes (c ∷ p) (d ∷ q) (e ∷ s) h k = elim (prefixes p q s (ground arith) (ground arith)) [
  | inl f ↦ inl (ground arith)
  | inr f ↦ inr (ground arith)
]

module _ (exact : Text) where
  abbrev pub covers : Text → Text → Bool
  covers target current = if same target exact then same current target else is_under target current

  -- Two targets that no path can be under at once.
  abbrev pub apart : Text → Text → Bool
  apart t u =
      if same t exact
      then not (covers u exact)
      else if same u exact
      then not (covers t exact)
      else not (starts_with (slashed t) (slashed u)) && not (starts_with (slashed u) (slashed t))

  apart-covers : (t u c : Text) → apart t u ≡ true → covers t c ≡ true → covers u c ≡ false
  apart-covers t u c a h = elim (Bool-cases (covers u c)) [
    | inr free ↦ free
    | inl both ↦ absurd (clash (Bool-cases (same t exact)) (Bool-cases (same u exact)) both)
  ]
    where
      clash :
          (same t exact ≡ true) ⊎ (same t exact ≡ false)
          → (same u exact ≡ true) ⊎ (same u exact ≡ false)
          → covers u c ≡ true
          → ⊥
      clash (inl e) w both =
          let c_home = (same_iff c t).0 (rw e at h) ∙ (same_iff t exact).0 e in
          cc (rw e at a, ap (covers u) c_home, both)
      clash (inr e) (inl f) both =
          let c_home = (same_iff c u).0 (rw f at both) ∙ (same_iff u exact).0 f in
          cc (rw (e, f) at a, rw e at h)
      clash (inr e) (inr f) both =
          elim (prefixes (slashed t) (slashed u) (slashed c) (is_under-slashed t c (rw e at h))
            (is_under-slashed u c (rw f at both))) [
              | inl p ↦ cc (rw (e, f, p) at a)
              | inr p ↦
                  let x =
                    (&&_true (not (starts_with (slashed t) (slashed u)))
                        (not (starts_with (slashed u) (slashed t)))).0
                      (rw (e, f) at a) in
                  cc (x.1, p)
            ]

  abbrev pub all_apart : List Text → Bool
  all_apart [] = true
  all_apart (t ∷ ts) = every (apart t) ts && all_apart ts

  abbrev pub covering : Text → List Text → List Text
  covering c ts = filter (λ t. covers t c) ts

  covering_none :
      (t c : Text) (ts : List Text)
      → covers t c ≡ true
      → All (λ u. apart t u ≡ true) ts
      → covering c ts ≡ []
  covering_none t c [] h k = refl
  covering_none t c (u ∷ ts) h (k, ks) = rw (apart-covers t u c k h) (covering_none t c ts h ks)

  pub covering_bound :
      (c : Text) (ts : List Text) → all_apart ts ≡ true → length (covering c ts) ≤ 1
  covering_bound c [] h = omega arith
  covering_bound c (t ∷ ts) h =
      let (k, ks) = (&&_true (every (apart t) ts) (all_apart ts)).0 h in
      elim (Bool-cases (covers t c)) [
        | inl e ↦ rw (e, covering_none t c ts e (every_iff (apart t) ts k)) (omega arith)
        | inr e ↦ rw e (covering_bound c ts ks)
      ]

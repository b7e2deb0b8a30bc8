-- ===== src/ToastProvider/Timers.antt =====
-- The component's map of timers beside the window's timers.
use mathlib.Core.Path.{subst}
use purels.Base.{
  ==_iff, All, All-append, All-filter, Bool, Bool-cases, List, [], ap, arith, false, filter, inl,
  inr, map, refl, some, sym, ℕ, ◌++◌, ◌==◌, ◌∙◌, ◌∷◌, ◌≡◌,
}
use purels.Js.Text.{Text, same}
use purels.Js.Text.Equality.{same_iff, same_refl}
use purels.ToastProvider.{clear_all, find_timer, other_key, other_timer}

abbrev pub swap : Text × ℕ → ℕ × Text
swap t = (t.1, t.0)

-- No two timers share an id or a handle.
abbrev pub IsFreshFor : Text × ℕ → Text × ℕ → Type 0
IsFreshFor t u = (same u.0 t.0 ≡ false) × ((u.1 == t.1) ≡ false)

abbrev pub HasUniqueTimers : List (Text × ℕ) → Type 0
HasUniqueTimers [] = Unit
HasUniqueTimers (t ∷ ts) = All (IsFreshFor t) ts × HasUniqueTimers ts

pub HasUniqueTimers-filter :
    (keep : Text × ℕ → Bool) (ts : List (Text × ℕ))
    → HasUniqueTimers ts
    → HasUniqueTimers (filter keep ts)
HasUniqueTimers-filter keep [] h = tt
HasUniqueTimers-filter keep (t ∷ ts) (h, hs) = elim (Bool-cases (keep t)) [
  | inl e ↦ rw e (All-filter (IsFreshFor t) keep ts h, HasUniqueTimers-filter keep ts hs)
  | inr e ↦ rw e (HasUniqueTimers-filter keep ts hs)
]

-- A timer that is fresh for all is added at the end.
pub HasUniqueTimers-concat :
    (ts : List (Text × ℕ)) (u : Text × ℕ)
    → HasUniqueTimers ts
    → All (λ t. IsFreshFor t u) ts
    → HasUniqueTimers (ts ++ (u ∷ []))
HasUniqueTimers-concat [] u h k = (tt, tt)
HasUniqueTimers-concat (t ∷ ts) u (h, hs) (k, ks) =
    (All-append (IsFreshFor t) ts (u ∷ []) h (k, tt), HasUniqueTimers-concat ts u hs ks)

-- Where no timer has the id of `t` or its handle, clearing `t` changes nothing.
clear_fresh :
    (t : Text × ℕ) (ts : List (Text × ℕ))
    → All (IsFreshFor t) ts
    → (filter (other_timer t.1) (map swap ts) ≡ map swap ts) × (filter (other_key t.0) ts ≡ ts)
clear_fresh t [] h = (refl, refl)
clear_fresh t (u ∷ ts) (h, hs) =
    let (a, b) = clear_fresh t ts hs in (rw (h.1) (ap (◌∷◌ (swap u)) a), rw (h.0) (ap (◌∷◌ u) b))

-- A timer that is found has a handle that some timer of the list has.
found_handle :
    (t : Text × ℕ) (ts : List (Text × ℕ)) (id : Text) (timer : ℕ)
    → All (IsFreshFor t) ts
    → find_timer ts id ≡ some timer
    → (t.1 == timer) ≡ false
unfolding find_timer
found_handle t [] id timer h e = cc
found_handle t (u ∷ ts) id timer (h, hs) e = elim (Bool-cases (same u.0 id)) [
  | inl here ↦ let found : u.1 ≡ timer = cc (rw here at e) in rw (← found) (ground (arith, h.1))
  | inr later ↦ found_handle t ts id timer hs (rw later at e)
]

clear_head :
    (t : Text × ℕ) (ts : List (Text × ℕ))
    → All (IsFreshFor t) ts
    → filter (other_timer t.1) (map swap (t ∷ ts)) ≡ map swap (filter (other_key t.0) (t ∷ ts))
clear_head t ts h =
    let (a, b) = clear_fresh t ts h in
    rw ((==_iff t.1 t.1).1 refl, same_refl t.0) (a ∙ ap (map swap) (sym b))

pub clear-swap :
    (ts : List (Text × ℕ)) (id : Text) (timer : ℕ)
    → HasUniqueTimers ts
    → find_timer ts id ≡ some timer
    → filter (other_timer timer) (map swap ts) ≡ map swap (filter (other_key id) ts)
unfolding find_timer
clear-swap [] id timer h e = refl
clear-swap (t ∷ ts) id timer (h, hs) e = elim (Bool-cases (same t.0 id)) [
  | inl here ↦
      let found : t.1 ≡ timer = cc (rw here at e) in
      subst
        (λ k.
          filter (other_timer timer) (map swap (t ∷ ts)) ≡ map swap (filter (other_key k) (t ∷ ts)))
        ((same_iff t.0 id).0 here)
        (subst
          (λ k.
            filter (other_timer k) (map swap (t ∷ ts)) ≡ map swap (filter (other_key t.0) (t ∷ ts)))
          found (clear_head t ts h))
  | inr later ↦
      let rest : find_timer ts id ≡ some timer = (rw later at e) in
      rw (later, found_handle t ts id timer h rest)
        (ap (◌∷◌ (swap t)) (clear-swap ts id timer hs rest))
]

-- Clearing every timer of the map leaves none of the window's.
pub clear_all-swap : (ts : List (Text × ℕ)) → HasUniqueTimers ts → clear_all ts (map swap ts) ≡ []
clear_all-swap [] h = refl
clear_all-swap (t ∷ ts) (h, hs) =
    rw ((==_iff t.1 t.1).1 refl) (rw ((clear_fresh t ts h).0) (clear_all-swap ts hs))

-- ===== src/ToastProvider/Ids.antt =====
-- The counter that the ids of toasts come from.
use purels.Base.{
  All, Bool-cases, List, [], ap, arith, false, inl, inr, map, refl, sym, true, ℕ, ◌++◌, ◌+◌, ◌<◌,
  ◌==◌, ◌∙◌, ◌∷◌, ◌≡◌,
}
use purels.FeedbackQueue.{FeedbackToast}
use purels.FeedbackQueue.Laws.{IsAbsent}
use purels.Js.Decimal.{decimal_injective}
use purels.Js.Text.{Text, same}
use purels.Js.Text.Equality.{same_iff}
use purels.ToastProvider.{other_key, toast_id}
use purels.ToastProvider.Timers.{IsFreshFor, swap}

abbrev pub IsUnusedTimer : ℕ → List (ℕ × Text) → Type 0
IsUnusedTimer timer qs = All (λ q. (q.0 == timer) ≡ false) qs

-- The ids that were given out so far.
abbrev pub Issued : ℕ → Text → Type 0
Issued n id = (k : ℕ) × (k < n) × (id ≡ toast_id k)

toast_id_injective : (j k : ℕ) → toast_id j ≡ toast_id k → j ≡ k
toast_id_injective j k h = decimal_injective j k (cc)

same_of_ne : (s t : Text) → (s ≡ t → ⊥) → same s t ≡ false
same_of_ne s t h = elim (Bool-cases (same s t)) [
  | inl e ↦ absurd (h ((same_iff s t).0 e))
  | inr e ↦ e
]

pub same_swapped : (s t : Text) → same s t ≡ false → same t s ≡ false
same_swapped s t h = same_of_ne t s (λ p. cc (h, (same_iff s t).1 (sym p)))

pub Issued-fresh : (n : ℕ) (id : Text) → Issued n id → same id (toast_id n) ≡ false
Issued-fresh n id (k, lt, e) =
    same_of_ne id (toast_id n) (λ p. absurd (omega (arith, toast_id_injective k n (sym e ∙ p))))

Issued-later : (n : ℕ) (id : Text) → Issued n id → Issued (n + 1) id
Issued-later n id (k, lt, e) = (k, omega arith, e)

pub toasts_later :
    (n : ℕ) (items : List FeedbackToast)
    → All (λ item. Issued n item.id) items
    → All (λ item. Issued (n + 1) item.id) items
toasts_later n [] h = tt
toasts_later n (item ∷ items) (h, hs) = (Issued-later n item.id h, toasts_later n items hs)

pub timers_later :
    (n : ℕ) (ts : List (Text × ℕ)) → All (λ t. Issued n t.0) ts → All (λ t. Issued (n + 1) t.0) ts
timers_later n [] h = tt
timers_later n (t ∷ ts) (h, hs) = (Issued-later n t.0 h, timers_later n ts hs)

pub toasts-IsAbsent :
    (n : ℕ) (items : List FeedbackToast)
    → All (λ item. Issued n item.id) items
    → IsAbsent (toast_id n) items
toasts-IsAbsent n [] h = tt
toasts-IsAbsent n (item ∷ items) (h, hs) =
    (rw (Issued-fresh n item.id h), toasts-IsAbsent n items hs)

pub keys_absent :
    (n : ℕ) (ts : List (Text × ℕ))
    → All (λ t. Issued n t.0) ts
    → All (λ t. other_key (toast_id n) t ≡ true) ts
keys_absent n [] h = tt
keys_absent n (t ∷ ts) (h, hs) = (rw (Issued-fresh n t.0 h), keys_absent n ts hs)

pub timers_fresh :
    (n timer : ℕ) (ts : List (Text × ℕ))
    → All (λ t. Issued n t.0) ts
    → IsUnusedTimer timer (map swap ts)
    → All (λ t. IsFreshFor t (toast_id n, timer)) ts
timers_fresh n timer [] h k = tt
timers_fresh n timer (t ∷ ts) (h, hs) (k, ks) = (
  (same_swapped t.0 (toast_id n) (Issued-fresh n t.0 h), ground arith),
  timers_fresh n timer ts hs ks,
)

pub map-swap_concat :
    (ts : List (Text × ℕ)) (t : Text × ℕ) → map swap (ts ++ (t ∷ [])) ≡ map swap ts ++ (swap t ∷ [])
map-swap_concat [] t = refl
map-swap_concat (u ∷ ts) t = ap (◌∷◌ (swap u)) (map-swap_concat ts t)

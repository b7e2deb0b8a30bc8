-- ===== src/FeedbackQueue/Laws.antt =====
-- The length and the ids of the queue (lib/feedback-queue.ts).
use purels.Base.{
  All, All-filter, All-take, Bool, Bool-cases, List, [], arith, filter, filter-All, filter_of_All,
  inl, inr, length, length-filter, length-take, max, suc, take, true, zero, ℕ, ◌∷◌, ◌≡◌, ◌≤◌,
}
use purels.FeedbackQueue.{FeedbackToast, add_toast, differs, remove_toast}
use purels.Js.Text.{Text}

-- No toast has the id; no two toasts share one.
abbrev pub IsAbsent : Text → List FeedbackToast → Type 0
IsAbsent id state = All (λ item. differs id item ≡ true) state

abbrev pub HasUniqueIds : List FeedbackToast → Type 0
HasUniqueIds [] = Unit
HasUniqueIds (item ∷ state) = IsAbsent item.id state × HasUniqueIds state

pub record IsQueue (limit : ℕ) (state : List FeedbackToast) : Type 0 where
  pub bounded : length state ≤ max 1 limit
  pub unique : HasUniqueIds state

HasUniqueIds-filter :
    (p : FeedbackToast → Bool) (state : List FeedbackToast)
    → HasUniqueIds state
    → HasUniqueIds (filter p state)
HasUniqueIds-filter p [] h = tt
HasUniqueIds-filter p (item ∷ state) (h, hs) = elim (Bool-cases (p item)) [
  | inl kept ↦
      rw kept (All-filter (λ x. differs item.id x ≡ true) p state h, HasUniqueIds-filter p state hs)
  | inr gone ↦ rw gone (HasUniqueIds-filter p state hs)
]

HasUniqueIds-take :
    (n : ℕ) (state : List FeedbackToast) → HasUniqueIds state → HasUniqueIds (take n state)
HasUniqueIds-take zero state h = tt
HasUniqueIds-take (suc n) [] h = tt
HasUniqueIds-take (suc n) (item ∷ state) (h, hs) =
    (All-take (λ x. differs item.id x ≡ true) n state h, HasUniqueIds-take n state hs)

-- Adding a toast to a queue that is within the limit and has no two toasts with one id gives
-- such a queue.
pub add_toast-IsQueue :
    (state : List FeedbackToast) (toast : FeedbackToast) (limit : ℕ)
    → IsQueue limit state
    → IsQueue limit (add_toast state toast limit)
unfolding add_toast
add_toast-IsQueue state toast limit q = record {
  bounded = omega (arith, length-take (max 1 limit) (toast ∷ filter (differs toast.id) state));
  unique =
      HasUniqueIds-take (max 1 limit) _ (
        filter-All (differs toast.id) state,
        HasUniqueIds-filter (differs toast.id) state q.unique,
      );
}

-- Dismissing keeps the queue.
pub remove_toast-IsQueue :
    (state : List FeedbackToast) (id : Text) (limit : ℕ)
    → IsQueue limit state
    → IsQueue limit (remove_toast state id)
unfolding remove_toast
remove_toast-IsQueue state id limit q = record {
  bounded = omega (arith, length-filter (differs id) state, q.bounded);
  unique = HasUniqueIds-filter (differs id) state q.unique;
}

-- Dismissing an id leaves the other toasts, in their order, and no toast with that id.
pub remove_toast-IsAbsent :
    (state : List FeedbackToast) (id : Text) → IsAbsent id (remove_toast state id)
unfolding remove_toast
remove_toast-IsAbsent state id = filter-All (differs id) state

pub remove_toast_of_IsAbsent :
    (state : List FeedbackToast) (id : Text) → IsAbsent id state → remove_toast state id ≡ state
unfolding remove_toast
remove_toast_of_IsAbsent state id h = filter_of_All (differs id) state h

-- ===== src/FeedbackQueue.antt =====
-- web/src/lib/feedback-queue.ts: the queue of toasts, newest first.
pub mod Laws
use purels.Base.{Bool, List, Option, filter, max, not, take, ℕ, ◌∷◌}
use purels.Js.Text.{Text, same}

pub data ToastKind : Type 0 where
  success error info : ToastKind

pub record FeedbackToast : Type 0 where
  pub id : Text
  pub kind : ToastKind
  pub title : Text
  pub description : Option Text

abbrev pub differs : Text → FeedbackToast → Bool
differs id item = not (same item.id id)

-- The source's default limit is 3.
unfoldable pub add_toast : List FeedbackToast → FeedbackToast → ℕ → List FeedbackToast
unfolding same
add_toast state toast limit = take (max 1 limit) (toast ∷ filter (differs toast.id) state)

unfoldable pub remove_toast : List FeedbackToast → Text → List FeedbackToast
unfolding same
remove_toast state id = filter (differs id) state

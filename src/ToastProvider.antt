-- ===== src/ToastProvider.antt =====
-- web/src/components/toast-provider.tsx: the toasts on screen, and the timers that dismiss them.
pub mod Timers
pub mod Ids
pub mod Reachable
use purels.Base.{
  Bool, List, Option, [], false, filter, if◌then◌else◌, none, not, some, ℕ, ◌++◌, ◌+◌, ◌==◌, ◌∷◌,
}
use purels.FeedbackQueue.{FeedbackToast, ToastKind, add_toast, remove_toast}
use purels.Js.Decimal.{decimal}
use purels.Js.Text.{Text, same, text}

pub record ToastOptions : Type 0 where
  pub kind : ToastKind
  pub title : Text
  pub description : Option Text
  pub duration : Option ℕ

-- `timers` is the component's map of ids to timers; `pending` are the timers of the window that have
-- not fired, each with the id that it will dismiss.
pub record Provider : Type 0 where
  pub toasts : List FeedbackToast
  pub timers : List (Text × ℕ)
  pub sequence : ℕ
  pub pending : List (ℕ × Text)

abbrev pub mounted : Provider
mounted = record { toasts = []; timers = []; sequence = 0; pending = [] }

-- `toast-${sequence}`.
abbrev pub toast_id : ℕ → Text
toast_id k = text "toast-" ++ decimal k

abbrev pub other_key : Text → Text × ℕ → Bool
other_key id t = not (same t.0 id)

abbrev pub other_timer : ℕ → ℕ × Text → Bool
other_timer timer q = not (q.0 == timer)

unfoldable pub find_timer : List (Text × ℕ) → Text → Option ℕ
unfolding same
find_timer [] id = none
find_timer (t ∷ ts) id = if same t.0 id then some t.1 else find_timer ts id

-- `window.clearTimeout` and `timers.current.delete`.
abbrev pub clear_timer : Option ℕ → Text → Provider → Provider
clear_timer none id p = p
clear_timer (some timer) id p = record p {
  pending = filter (other_timer timer) p.pending;
  timers = filter (other_key id) p.timers;
}

unfoldable pub dismiss : Text → Provider → Provider
unfolding remove_toast find_timer
dismiss id p =
    clear_timer (find_timer p.timers id) id (record p { toasts = remove_toast p.toasts id })

abbrev is_sticky : Option ℕ → Bool
is_sticky none = false
is_sticky (some d) = d == 0

abbrev pub new_toast : ToastOptions → ℕ → FeedbackToast
new_toast input k = record {
  id = toast_id k;
  kind = input.kind;
  title = input.title;
  description = input.description;
}

-- `timer` is what `window.setTimeout` returns.
abbrev pub start_timer : ℕ → Text → Provider → Provider
start_timer timer id p = record p {
  pending = p.pending ++ ((timer, id) ∷ []);
  timers = filter (other_key id) p.timers ++ ((id, timer) ∷ []);
}

abbrev pub show : ToastOptions → Provider → Provider
show input p = record p {
  toasts = add_toast p.toasts (new_toast input p.sequence) 3;
  sequence = p.sequence + 1;
}

unfoldable pub toast : ToastOptions → ℕ → Provider → Provider
unfolding add_toast decimal
toast input timer p =
    if is_sticky input.duration
    then show input p
    else start_timer timer (toast_id p.sequence) (show input p)

-- A timer of the window fires: it is pending no more, and dismisses its toast.
abbrev pub fire : ℕ × Text → Provider → Provider
fire q p = dismiss q.1 (record p { pending = filter (other_timer q.0) p.pending })

abbrev pub clear_all : List (Text × ℕ) → List (ℕ × Text) → List (ℕ × Text)
clear_all [] qs = qs
clear_all (t ∷ ts) qs = clear_all ts (filter (other_timer t.1) qs)

-- The clean-up of the effect.
unfoldable pub unmount : Provider → Provider
unmount p = record p { pending = clear_all p.timers p.pending; timers = [] }

-- ===== src/ToastProvider/Reachable.antt =====
-- What holds of a mounted provider after any sequence of calls and fired timers.
use mathlib.Core.Path.{subst}
use purels.Base.{
  All, All-append, All-filter, All-take, Bool-cases, List, Option-cases, [], ap, arith, false,
  filter, filter-All, filter_of_All, inl, inr, map, refl, some, sym, ℕ, ◌++◌, ◌+◌, ◌∙◌, ◌∷◌, ◌≡◌,
  ◌⊎◌,
}
use purels.FeedbackQueue.{add_toast, differs, remove_toast}
use purels.FeedbackQueue.Laws.{IsAbsent, IsQueue, add_toast-IsQueue, remove_toast-IsQueue}
use purels.Js.Text.{Text, same}
use purels.Js.Text.Equality.{same_refl}
use purels.ToastProvider.{
  Provider, ToastOptions, clear_all, clear_timer, dismiss, find_timer, fire, is_sticky, mounted,
  new_toast, other_key, other_timer, show, start_timer, toast, toast_id, unmount,
}
use purels.ToastProvider.Ids.{
  IsUnusedTimer, Issued, keys_absent, map-swap_concat, same_swapped, timers_fresh, timers_later,
  toasts-IsAbsent, toasts_later,
}
use purels.ToastProvider.Timers.{
  HasUniqueTimers, HasUniqueTimers-concat, HasUniqueTimers-filter, IsFreshFor, clear-swap,
  clear_all-swap, swap,
}

abbrev pub IsPending : ℕ × Text → List (ℕ × Text) → Type 0
IsPending q [] = ⊥
IsPending q (r ∷ rs) = (r ≡ q) ⊎ IsPending q rs

-- A handle that `setTimeout` returns belongs to no timer that is still pending.
pub data Step : Provider → Provider → Type 0 where
  adds :
      (s : Provider) (input : ToastOptions) (timer : ℕ)
      → IsUnusedTimer timer s.pending
      → Step s (toast input timer s)
  dismisses : (s : Provider) (id : Text) → Step s (dismiss id s)
  fires : (s : Provider) (q : ℕ × Text) → IsPending q s.pending → Step s (fire q s)

pub data Reach : Provider → Type 0 where
  here : Reach mounted
  next : {s t : Provider} → Reach s → Step s t → Reach t

record IsSound (s : Provider) : Type 0 where
  queue : IsQueue 3 s.toasts
  issued : All (λ item. Issued s.sequence item.id) s.toasts
  timed : All (λ t. Issued s.sequence t.0) s.timers
  unique : HasUniqueTimers s.timers
  paired : s.pending ≡ map swap s.timers

cleared-IsSound :
    (s : Provider) (id : Text)
    → IsSound s
    → IsSound
        (clear_timer (find_timer s.timers id) id (record s { toasts = remove_toast s.toasts id }))
unfolding remove_toast
cleared-IsSound s id v = elim (Option-cases (find_timer s.timers id)) [
  | inl off ↦ rw off (record {
    queue = remove_toast-IsQueue s.toasts id 3 v.queue;
    issued = All-filter (λ item. Issued s.sequence item.id) (differs id) s.toasts v.issued;
    timed = v.timed;
    unique = v.unique;
    paired = v.paired;
  })
  | inr (timer, on) ↦ rw on (record {
    queue = remove_toast-IsQueue s.toasts id 3 v.queue;
    issued = All-filter (λ item. Issued s.sequence item.id) (differs id) s.toasts v.issued;
    timed = All-filter (λ t. Issued s.sequence t.0) (other_key id) s.timers v.timed;
    unique = HasUniqueTimers-filter (other_key id) s.timers v.unique;
    paired = ap (filter (other_timer timer)) v.paired ∙ clear-swap s.timers id timer v.unique on;
  })
]

dismiss-IsSound : (s : Provider) (id : Text) → IsSound s → IsSound (dismiss id s)
unfolding dismiss
dismiss-IsSound s id v = cleared-IsSound s id v

show-IsSound : (s : Provider) (input : ToastOptions) → IsSound s → IsSound (show input s)
unfolding add_toast
show-IsSound s input v = record {
  queue = add_toast-IsQueue s.toasts (new_toast input s.sequence) 3 v.queue;
  issued =
      All-take (λ item. Issued (s.sequence + 1) item.id) 3
        (new_toast input s.sequence ∷ filter (differs (toast_id s.sequence)) s.toasts)
        (
          (s.sequence, omega arith, refl),
          All-filter (λ item. Issued (s.sequence + 1) item.id) (differs (toast_id s.sequence))
              s.toasts (toasts_later s.sequence s.toasts v.issued),
        );
  timed = timers_later s.sequence s.timers v.timed;
  unique = v.unique;
  paired = v.paired;
}

start-IsSound :
    (s : Provider) (input : ToastOptions) (timer : ℕ)
    → IsSound s
    → IsUnusedTimer timer s.pending
    → IsSound (start_timer timer (toast_id s.sequence) (show input s))
start-IsSound s input timer v unused =
    let shown = show-IsSound s input v in
    let same_keys =
      filter_of_All (other_key (toast_id s.sequence)) s.timers
        (keys_absent s.sequence s.timers v.timed) in
    let fresh =
      timers_fresh s.sequence timer s.timers v.timed
        (subst (IsUnusedTimer timer) v.paired unused) in
    record {
      queue = shown.queue;
      issued = shown.issued;
      timed = rw same_keys (
          All-append (λ t. Issued (s.sequence + 1) t.0) s.timers ((toast_id s.sequence, timer) ∷ [])
            shown.timed ((s.sequence, omega arith, refl), tt));
      unique =
          rw same_keys
            (HasUniqueTimers-concat s.timers (toast_id s.sequence, timer) v.unique fresh);
      paired = rw same_keys (
          ap (λ qs. qs ++ ((timer, toast_id s.sequence) ∷ [])) v.paired
          ∙ sym (map-swap_concat s.timers (toast_id s.sequence, timer)));
    }

toast-IsSound :
    (s : Provider) (input : ToastOptions) (timer : ℕ)
    → IsSound s
    → IsUnusedTimer timer s.pending
    → IsSound (toast input timer s)
unfolding toast
toast-IsSound s input timer v unused = elim (Bool-cases (is_sticky input.duration)) [
  | inl stays ↦ rw stays (show-IsSound s input v)
  | inr leaves ↦ rw leaves (start-IsSound s input timer v unused)
]

-- A pending timer is the one that the map has for its toast.
pending_key :
    (t : Text × ℕ) (ts : List (Text × ℕ)) (q : ℕ × Text)
    → All (IsFreshFor t) ts
    → IsPending q (map swap ts)
    → same q.1 t.0 ≡ false
pending_key t [] q h m = elim m [ ]
pending_key t (u ∷ ts) q (h, hs) (inl e) = ap (λ r. same r.1 t.0) (sym e) ∙ h.0
pending_key t (u ∷ ts) q (h, hs) (inr m) = pending_key t ts q hs m

find-pending :
    (ts : List (Text × ℕ)) (q : ℕ × Text)
    → HasUniqueTimers ts
    → IsPending q (map swap ts)
    → find_timer ts q.1 ≡ some q.0
unfolding find_timer
find-pending [] q h m = elim m [ ]
find-pending (t ∷ ts) q (h, hs) (inl e) =
    rw (ap (λ r. same t.0 r.1) (sym e) ∙ same_refl t.0) (ap (λ r. some r.0) e)
find-pending (t ∷ ts) q (h, hs) (inr m) =
    rw (same_swapped q.1 t.0 (pending_key t ts q h m)) (find-pending ts q hs m)

-- A timer that fires does what a dismissal of its toast does.
fire-dismiss :
    (s : Provider) (q : ℕ × Text) → IsSound s → IsPending q s.pending → fire q s ≡ dismiss q.1 s
unfolding dismiss
fire-dismiss s q v m = rw (find-pending s.timers q v.unique (subst (IsPending q) v.paired m)) (
    ap
      (λ (qs : List (ℕ × Text)). record s {
        toasts = remove_toast s.toasts q.1;
        pending = qs;
        timers = filter (other_key q.1) s.timers;
      })
      (filter_of_All (other_timer q.0) (filter (other_timer q.0) s.pending)
        (filter-All (other_timer q.0) s.pending)))

Step-IsSound : {s t : Provider} → Step s t → IsSound s → IsSound t
Step-IsSound (adds s input timer unused) v = toast-IsSound s input timer v unused
Step-IsSound (dismisses s id) v = dismiss-IsSound s id v
Step-IsSound (fires s q m) v = rw (fire-dismiss s q v m) (dismiss-IsSound s q.1 v)

Reach-IsSound : {s : Provider} → Reach s → IsSound s
Reach-IsSound here = record {
  queue = record { bounded = omega arith; unique = tt };
  issued = tt;
  timed = tt;
  unique = tt;
  paired = refl;
}
Reach-IsSound (next r st) = Step-IsSound st (Reach-IsSound r)

-- After any sequence of toasts, dismissals and fired timers, if each started timer has a handle
-- that no pending timer has, there are at most three toasts and no two with one id, no toast has
-- the id that the next one will get, and unmounting the provider leaves no timer pending.
pub Reach-unmount :
    {s : Provider}
    → Reach s
    → IsQueue 3 s.toasts × IsAbsent (toast_id s.sequence) s.toasts × ((unmount s).pending ≡ [])
unfolding unmount
Reach-unmount {s} r =
    let v = Reach-IsSound r in
    (
      v.queue,
      toasts-IsAbsent s.sequence s.toasts v.issued,
      ap (clear_all s.timers) v.paired ∙ clear_all-swap s.timers v.unique,
    )

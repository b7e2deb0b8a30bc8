-- ===== src/Tests/Guards.antt =====
-- The toast provider and the draft guard after a few steps.
use mathlib.Core.Path.{subst}
use purels.ToastProvider.Reachable
use purels.DraftGuard.Leaving
use purels.Base.{
  All, Bool-cases, Option, [], false, if◌then◌else◌, inl, inr, length, ltb, none, refl, some, true,
  ◌∷◌, ◌≡◌,
}
use purels.DraftGuard.{
  Click, Guard, Url, UrlParser, before_unload, discard_and_leave, follow_link, opened,
  register_dirty,
}
use purels.DraftGuard.Leaving.{
  IsLocal, IsLocalOption, Reach-before_unload, clicks, discards, registers,
}
use purels.FeedbackQueue.{ToastKind}
use purels.FeedbackQueue.Laws.{IsAbsent, IsQueue}
use purels.Js.Case.{ascii_mapping}
use purels.Js.Text.{Text, same, text}
use purels.Js.Text.Equality.{same_refl}
use purels.ToastProvider.{Provider, ToastOptions, mounted, toast, toast_id, unmount}
use purels.ToastProvider.Reachable.{Reach, Reach-unmount, Step, adds, here, next}

abbrev saved_options : ToastOptions
saved_options = record {
  kind = ToastKind.success;
  title = text "Saved";
  description = none;
  duration = none;
}

abbrev after_toast : Provider
after_toast = toast saved_options 7 mounted

after_toast_reached : Reachable.Reach after_toast
after_toast_reached =
    Reachable.Reach.next Reachable.Reach.here (Reachable.Step.adds mounted saved_options 7 tt)

Reach-unmount_example :
    IsQueue 3 after_toast.toasts
    × IsAbsent (toast_id after_toast.sequence) after_toast.toasts
    × ((unmount after_toast).pending ≡ [])
Reach-unmount_example = Reachable.Reach-unmount after_toast_reached

abbrev settings_url : Url
settings_url = record {
  protocol = text "https:";
  origin = text "https://console.example";
  pathname = text "/home/settings/links";
  search = [];
  href = text "https://console.example/home/settings/links";
}

abbrev stats_url : Url
stats_url = record settings_url {
  pathname = text "/home/stats";
  href = text "https://console.example/home/stats";
}

-- A parser that knows one absolute URL.
abbrev parse_one : Text → Text → Option Url
parse_one href base = if same href stats_url.href then some stats_url else none

parse_one-href :
    (href base other : Text) (u : Url)
    → parse_one href base ≡ some u
    → parse_one u.href other ≡ some u
parse_one-href href base other u h = elim (Bool-cases (same href stats_url.href)) [
  | inr e ↦ cc (rw e at h)
  | inl e ↦
      let found : stats_url ≡ u = cc (rw e at h) in
      subst (λ (v : Url). parse_one v.href other ≡ some v) found (rw (same_refl stats_url.href))
]

abbrev one_url : UrlParser
one_url = record { parse = parse_one; parse_href = parse_one-href }

abbrev stats_click : Click
stats_click = record {
  default_prevented = false;
  button = 0;
  has_modifier = false;
  anchor = some (record { download = false; target = []; href = stats_url.href });
}

abbrev edited : Guard
edited = register_dirty (text "form") true opened

abbrev asked_to_leave : Guard
asked_to_leave = (follow_link ascii_mapping one_url settings_url stats_click edited).0

abbrev left : Guard
left = discard_and_leave ascii_mapping one_url settings_url asked_to_leave

left_reached : Leaving.Reach ascii_mapping one_url settings_url left
left_reached =
    Leaving.Reach.next
      (Leaving.Reach.next
        (Leaving.Reach.next Leaving.Reach.here (Leaving.Step.registers opened (text "form") true))
        (Leaving.Step.clicks edited stats_click))
      (Leaving.Step.discards asked_to_leave)

left_pushed : left.pushed ≡ text "https://console.example/home/stats" ∷ []
unfolding discard_and_leave follow_link register_dirty same
left_pushed = refl

Reach-before_unload_example :
    (before_unload ascii_mapping one_url settings_url left ≡ ltb 0 (length left.dirty_forms))
    × All (IsLocal one_url settings_url) left.pushed
    × IsLocalOption one_url settings_url left.pending_href
Reach-before_unload_example =
    Leaving.Reach-before_unload ascii_mapping one_url settings_url left_reached

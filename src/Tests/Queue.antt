-- ===== src/Tests/Queue.antt =====
-- The toast queue, tags and CSV at concrete inputs.

use purels.Base.{List, [], arith, none, refl, some, ◌∷◌, ◌≡◌}
use purels.Csv.{csv_body}
use purels.Csv.Reader.{read, start}
use purels.Csv.RoundTrip.{read-csv_body}
use purels.FeedbackQueue.{FeedbackToast, ToastKind, add_toast}
use purels.FeedbackQueue.Laws.{IsQueue, add_toast-IsQueue}
use purels.Js.Text.{Text, join, same, text}
use purels.Tags.{parse_tags}
use purels.Tags.Laws.{IsTagList, parse_tags-IsTagList, parse_tags-join}

abbrev saved_toast : FeedbackToast
saved_toast = record {
  id = text "toast-0";
  kind = ToastKind.success;
  title = text "Saved";
  description = none;
}

abbrev failed_toast : FeedbackToast
failed_toast = record {
  id = text "toast-1";
  kind = ToastKind.error;
  title = text "Failed";
  description = none;
}

abbrev two_toasts : List FeedbackToast
two_toasts = failed_toast ∷ saved_toast ∷ []

two_toasts-IsQueue : IsQueue 2 two_toasts
unfolding same
two_toasts-IsQueue = record { bounded = omega arith; unique = ((refl, tt), (tt, tt)) }

abbrev third_toast : FeedbackToast
third_toast = record {
  id = text "toast-2";
  kind = ToastKind.info;
  title = text "Copied";
  description = none;
}

add_toast-IsQueue_example : IsQueue 2 (add_toast two_toasts third_toast 2)
add_toast-IsQueue_example = add_toast-IsQueue two_toasts third_toast 2 two_toasts-IsQueue

add_toast_drops_oldest : add_toast two_toasts third_toast 2 ≡ third_toast ∷ failed_toast ∷ []
unfolding add_toast
add_toast_drops_oldest = refl

abbrev tag_line : Text
tag_line = text " work,play ,work"

parse_tags_run : parse_tags tag_line ≡ text "work" ∷ text "play" ∷ []
unfolding parse_tags
parse_tags_run = refl

parse_tags-IsTagList_example : IsTagList (parse_tags tag_line)
parse_tags-IsTagList_example = parse_tags-IsTagList tag_line

parse_tags-join_example : parse_tags (join (text ",") (parse_tags tag_line)) ≡ parse_tags tag_line
parse_tags-join_example = parse_tags-join (parse_tags tag_line) (parse_tags-IsTagList tag_line)

abbrev quoted_rows : List (List Text)
quoted_rows = (text "code" ∷ text "say \"hi\", all" ∷ []) ∷ (text "" ∷ []) ∷ []

read-csv_body_example : read start (csv_body quoted_rows) ≡ some quoted_rows
read-csv_body_example = read-csv_body quoted_rows (tt, tt)

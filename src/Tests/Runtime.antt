-- ===== src/Tests/Runtime.antt =====
-- The runtime settings form at concrete inputs.
use purels.Base.{All, [], if◌then◌else◌, none, refl, some, true, ◌∷◌, ◌≡◌}
use purels.Js.Decimal.{decimal, read_decimal}
use purels.Js.Text.{includes, is_space, text}
use purels.Js.Text.Equality.{In}
use purels.RuntimeForm.{
  Draft, Settings, amount, changes, creation, find_field, flag, listed, runtime_changes,
  runtime_draft, runtime_groups, ticked, typed, words,
}
use purels.RuntimeForm.Kinds.{KeepsKind, runtime_changes-KeepsKind}
use purels.RuntimeForm.Outcomes.{due_change, find_field-runtime_changes}
use purels.RuntimeForm.Refusals.{first_faulty, refusal, refusal-runtime_changes}
use purels.RuntimeForm.Unedited.{IsStored, runtime_changes-runtime_draft}
use purels.Tests.Counting.{counting, natural}

abbrev saved_settings : Settings counting
saved_settings =
    (text "alias_mode", words (text "random"))
    ∷ (text "unique_urls", flag true)
    ∷ (text "max_links_per_user", amount (natural 100))
    ∷ (text "short_domains", listed (text "a.io" ∷ text "b.io" ∷ []))
    ∷ []

abbrev edited_draft : Draft
edited_draft =
    (text "alias_mode", typed (text "random"))
    ∷ (text "unique_urls", ticked true)
    ∷ (text "max_links_per_user", typed (text "250"))
    ∷ (text "short_domains", typed (text "a.io, c.io"))
    ∷ []

abbrev sent_changes : Settings counting
sent_changes =
    (text "max_links_per_user", amount (natural 250))
    ∷ (text "short_domains", listed (text "a.io" ∷ text "c.io" ∷ []))
    ∷ []

runtime_changes_run :
    runtime_changes counting saved_settings edited_draft creation ≡ changes sent_changes
unfolding runtime_changes read_decimal decimal
runtime_changes_run = refl

find_field-runtime_changes_example : find_field sent_changes (text "short_domains") ≡ (
    if includes (runtime_groups creation) (text "short_domains")
    then due_change counting saved_settings edited_draft (text "short_domains")
    else none)
find_field-runtime_changes_example =
    find_field-runtime_changes counting saved_settings edited_draft creation sent_changes
      (text "short_domains") runtime_changes_run

sent_amount : find_field sent_changes (text "max_links_per_user") ≡ some (amount (natural 250))
unfolding find_field
sent_amount = refl

runtime_changes-KeepsKind_example :
    In (text "max_links_per_user") (runtime_groups creation)
    × KeepsKind counting
        (find_field saved_settings (text "max_links_per_user"))
        (amount (natural 250))
runtime_changes-KeepsKind_example =
    runtime_changes-KeepsKind counting saved_settings edited_draft creation sent_changes
      (text "max_links_per_user") (amount (natural 250)) runtime_changes_run sent_amount

abbrev blank_draft : Draft
blank_draft = (text "max_links_per_user", typed []) ∷ []

refusal-runtime_changes_example :
    refusal counting (runtime_changes counting saved_settings blank_draft creation)
    ≡ first_faulty counting saved_settings blank_draft (runtime_groups creation)
refusal-runtime_changes_example =
    refusal-runtime_changes counting saved_settings blank_draft creation

refusal_run :
    refusal counting (runtime_changes counting saved_settings blank_draft creation)
    ≡ some (text "max_links_per_user")
unfolding runtime_changes read_decimal decimal
refusal_run = refl

saved_settings-IsStored :
    All (λ key. IsStored counting (find_field saved_settings key)) (runtime_groups creation)
unfolding find_field is_space
saved_settings-IsStored = (
  tt,
  (
    tt,
    (
      refl,
      (
        (
          ((refl, refl), refl, (refl, (refl, (refl, (refl, tt))))),
          (((refl, refl), refl, (refl, (refl, (refl, (refl, tt))))), tt),
        ),
        tt,
      ),
    ),
  ),
)

runtime_changes-runtime_draft_example :
    runtime_changes counting saved_settings
      (runtime_draft counting saved_settings creation)
      creation
    ≡ changes []
runtime_changes-runtime_draft_example =
    runtime_changes-runtime_draft counting saved_settings creation saved_settings-IsStored

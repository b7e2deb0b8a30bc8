-- ===== src/Tests/Forms.antt =====
-- The runtime form: the settings are loaded, one is edited, and the change is sent.
use purels.Base.{[], false, refl, some, true, ◌∷◌, ◌≡◌}
use purels.Js.Text.{text}
use purels.RuntimeForm.{flag, runtime_draft, statistics, ticked}
use purels.RuntimeForm.Editor.{Saved, answered, edit, finish_load, mounted_form, put_field, save}
use purels.RuntimeForm.Editor.Flights.{
  IsFlightOf, IsIdle, Reach, Reach-IsFlightOf, Session, Step, begun, with_form,
}
use purels.Tests.Counting.{counting, natural}

abbrev stored : Saved counting statistics
stored = record { revision = natural 4; settings = (text "count_bots", flag true) ∷ [] }

abbrev loaded_session : Session counting statistics
loaded_session =
    with_form counting statistics (begun counting statistics)
      (finish_load counting statistics (answered stored) (mounted_form counting statistics))

abbrev edited_session : Session counting statistics
edited_session =
    with_form counting statistics loaded_session
      (edit counting statistics (text "count_bots") (ticked false) loaded_session.form)

abbrev saving_session : Session counting statistics
saving_session = record {
  form = (save counting statistics edited_session.form).0;
  flight = (save counting statistics edited_session.form).1;
}

loaded-IsIdle : IsIdle counting statistics loaded_session.form stored
loaded-IsIdle = record { loaded = refl; free = refl }

edited-IsIdle : IsIdle counting statistics edited_session.form stored
edited-IsIdle = record { loaded = refl; free = refl }

saving-Reach : Reach counting statistics saving_session
saving-Reach =
    Reach.next
      (Reach.next
        (Reach.next Reach.here (Step.loads (begun counting statistics) (answered stored) refl))
        (Step.types_in loaded_session stored (text "count_bots") (ticked false) loaded-IsIdle))
      (Step.saves edited_session stored edited-IsIdle)

Reach-IsFlightOf_example : IsFlightOf counting statistics saving_session.form saving_session.flight
Reach-IsFlightOf_example = Reach-IsFlightOf counting statistics saving-Reach

sent_patch :
    saving_session.flight
    ≡ some (record { base = natural 4; edits = (text "count_bots", flag false) ∷ [] })
unfolding save put_field runtime_draft
sent_patch = refl

-- ===== src/DraftGuard/Guarding.antt =====
-- The set of dirty forms, over registrations and saves.
use purels.Base.{
  Bool, Bool-cases, List, [], ap, arith, false, filter, if◌then◌else◌, inl, inr, not, refl, sym,
  true, ◌&&◌, ◌++◌, ◌||◌, ◌∙◌, ◌∷◌, ◌≡◌,
}
use purels.DraftGuard.{is_other, update_forms}
use purels.I18n.Translate.{form}
use purels.Js.Text.{Text, includes, same}
use purels.Js.Text.Equality.{same_iff}

includes-concat :
    (forms : List Text) (id form : Text)
    → includes (forms ++ (id ∷ [])) form ≡ includes forms form || same id form
unfolding includes
includes-concat [] id form = ground arith
includes-concat (x ∷ forms) id form = ground (arith, includes-concat forms id form)

includes-filter :
    (forms : List Text) (id form : Text)
    → includes (filter (is_other id) forms) form ≡ includes forms form && not (same id form)
unfolding includes
includes-filter [] id form = refl
includes-filter (x ∷ forms) id form =
    ground (arith, includes-filter forms id form, same_iff x id, same_iff x form, same_iff id form)

-- After a form has registered, it is among the dirty forms exactly as it said, and every other
-- form is among them exactly if it was before.
pub includes-update_forms :
    (id form : Text) (dirty : Bool) (forms : List Text)
    → includes (update_forms id dirty forms) form
      ≡ (if same id form then dirty else includes forms form)
unfolding update_forms
includes-update_forms id form false forms = includes-filter forms id form ∙ ground arith
includes-update_forms id form true forms = elim (Bool-cases (includes forms id)) [
  | inl held ↦ rw held (elim (Bool-cases (same id form)) [
    | inl e ↦ rw e (ap (includes forms) (sym ((same_iff id form).0 e)) ∙ held)
    | inr e ↦ rw e
  ])
  | inr new ↦ rw new (includes-concat forms id form ∙ ground arith)
]

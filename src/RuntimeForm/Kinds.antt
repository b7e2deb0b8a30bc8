-- ===== src/RuntimeForm/Kinds.antt =====
-- The kinds of values and of their changes.
use mathlib.Core.Path.{subst}
use purels.Base.{
  All, Bool-cases, List, Option, [], ap, arith, false, filter, inl, inr, map, none, refl, some, sym,
  true, ◌∙◌, ◌∷◌, ◌≡◌,
}
use purels.Js.Number.{Numbers}
use purels.Js.Text.{Text, includes, is_empty, split_by, trim}
use purels.Js.Text.Equality.{In, includes_iff}
use purels.Js.Text.Splitting.{HasNo, split_by-HasNo}
use purels.Js.Text.Trimming.{All-trim, IsTrimmed, trim-IsTrimmed}
use purels.RuntimeForm.{
  Draft, Raw, RuntimeGroup, Setting, Settings, amount, changes, find_field, flag, is_filled,
  is_invalid, is_item_end, is_same, is_skipped, list_items, listed, new_value, raw_text,
  runtime_changes, runtime_groups, ticked, typed, words,
}
use purels.RuntimeForm.Outcomes.{due, due_change, find_field-runtime_changes}
use purels.RuntimeForm.Refusals.{
  first_faulty, is_faulty, is_unusable, is_unusable_lem, refusal, refusal-runtime_changes,
}

-- An item of a list as the form reads it.
abbrev pub IsItem : Text → Type 0
IsItem s = IsTrimmed s × (is_empty s ≡ false) × HasNo is_item_end s

abbrev IsPart : Text → Type 0
IsPart s = IsTrimmed s × HasNo is_item_end s

map-trim-IsPart : (ss : List Text) → All (HasNo is_item_end) ss → All IsPart (map trim ss)
map-trim-IsPart [] h = tt
map-trim-IsPart (s ∷ ss) (h, hs) =
    ((trim-IsTrimmed s, All-trim (λ c. is_item_end c ≡ false) s h), map-trim-IsPart ss hs)

IsItem-filter : (ss : List Text) → All IsPart ss → All IsItem (filter is_filled ss)
IsItem-filter [] h = tt
IsItem-filter ([] ∷ ss) (h, hs) = IsItem-filter ss hs
IsItem-filter ((c ∷ s) ∷ ss) (h, hs) = ((h.0, refl, h.1), IsItem-filter ss hs)

pub list_items-IsItem : (s : Text) → All IsItem (list_items s)
unfolding list_items
list_items-IsItem s =
    IsItem-filter (map trim (split_by is_item_end s))
      (map-trim-IsPart (split_by is_item_end s) (split_by-HasNo is_item_end s))

module _ (n : Numbers) where
  open n use {is_safe_integer}

  -- A number stays a safe integer, a list a list of trimmed items, and all else a text or a flag.
  abbrev pub KeepsKind : Option (Setting n) → Setting n → Type 0
  KeepsKind (some (amount k)) (amount k') = is_safe_integer k' ≡ true
  KeepsKind (some (listed ss)) (listed ss') = All IsItem ss'
  KeepsKind (some (amount k)) v = ⊥
  KeepsKind (some (listed ss)) v = ⊥
  KeepsKind old (words s) = Unit
  KeepsKind old (flag b) = Unit
  KeepsKind old v = ⊥

  new_value-KeepsKind :
      (old : Option (Setting n)) (raw : Raw)
      → is_invalid n old raw ≡ false
      → KeepsKind old (new_value n old raw)
  unfolding new_value is_invalid
  new_value-KeepsKind none (typed s) h = tt
  new_value-KeepsKind none (ticked b) h = tt
  new_value-KeepsKind (some (flag b)) (typed s) h = tt
  new_value-KeepsKind (some (flag b)) (ticked b') h = tt
  new_value-KeepsKind (some (words s)) (typed s') h = tt
  new_value-KeepsKind (some (words s)) (ticked b) h = tt
  new_value-KeepsKind (some (listed ss)) raw h = list_items-IsItem (raw_text raw)
  new_value-KeepsKind (some (amount k)) (typed s) h = ground arith
  new_value-KeepsKind (some (amount k)) (ticked b) h = ground arith

  not_faulty :
      (saved : Settings n) (draft : Draft) (keys : List Text) (key : Text)
      → first_faulty n saved draft keys ≡ none
      → In key keys
      → is_faulty n saved draft key ≡ false
  not_faulty saved draft [] key h member = elim member [ ]
  not_faulty saved draft (k ∷ ks) key h member = elim (Bool-cases (is_faulty n saved draft k)) [
    | inl bad ↦ cc (rw bad at h)
    | inr fine ↦ elim member [
      | inl e ↦ subst (λ j. is_faulty n saved draft j ≡ false) e fine
      | inr later ↦ not_faulty saved draft ks key (rw fine at h) later
    ]
  ]

  due-KeepsKind :
      (old : Option (Setting n)) (raw : Option Raw) (v : Setting n)
      → is_unusable n old raw ≡ false
      → due n old raw ≡ some v
      → KeepsKind old v
  due-KeepsKind old none v h e = cc
  due-KeepsKind old (some raw) v h e = elim (Bool-cases (is_same n (new_value n old raw) old)) [
    | inl unchanged ↦ cc (rw unchanged at e)
    | inr changed ↦
        subst (KeepsKind old) (unwrap (rw changed at e))
          (new_value-KeepsKind old raw (sym (is_unusable_lem n old raw) ∙ h))
  ]
    where
      unwrap : some (new_value n old raw) ≡ some v → new_value n old raw ≡ v
      unwrap p = cc

  due_change-KeepsKind :
      (saved : Settings n) (draft : Draft) (key : Text) (v : Setting n)
      → is_faulty n saved draft key ≡ false
      → due_change n saved draft key ≡ some v
      → KeepsKind (find_field saved key) v
  due_change-KeepsKind saved draft key v h e = elim (Bool-cases (is_skipped draft key)) [
    | inl s ↦ cc (rw s at e)
    | inr s ↦ due-KeepsKind _ (find_field draft key) v (rw s at h) (rw s at e)
  ]

  -- When saving is not refused, every change that is sent is for a key of the group and keeps
  -- the kind of the saved value: a number is replaced by a safe integer, a list by a list of
  -- trimmed items that are not empty and hold no comma or line feed, and any other value by a
  -- text or a flag.
  pub runtime_changes-KeepsKind :
      (saved : Settings n) (draft : Draft) (group : RuntimeGroup) (cs : Settings n) (key : Text)
      (v : Setting n)
      → runtime_changes n saved draft group ≡ changes cs
      → find_field cs key ≡ some v
      → In key (runtime_groups group) × KeepsKind (find_field saved key) v
  runtime_changes-KeepsKind saved draft group cs key v h e =
      let due_here = sym (find_field-runtime_changes n saved draft group cs key h) ∙ e in
      elim (Bool-cases (includes (runtime_groups group) key)) [
        | inr out ↦ cc (rw out at due_here)
        | inl member ↦
            let inside = (includes_iff (runtime_groups group) key).0 member in
            (
              inside,
              due_change-KeepsKind saved draft key v
                  (not_faulty saved draft (runtime_groups group) key
                    (sym (refusal-runtime_changes n saved draft group) ∙ ap (refusal n) h) inside)
                  (rw member at due_here),
            )
      ]

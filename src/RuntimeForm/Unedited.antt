-- ===== src/RuntimeForm/Unedited.antt =====
-- The changes of a draft that nobody edited.
use purels.Base.{
  All, Bool-cases, List, Option, [], ap, ap₂, false, filter, inl, inr, map, none, refl, some, true,
  ◌∙◌, ◌∷◌, ◌≡◌,
}
use purels.Js.Json.{arr, num, stringify}
use purels.Js.Number.{Numbers}
use purels.Js.Text.{Text, join, same, split_by, trim, trim_end_by, trim_start_by}
use purels.Js.Text.Equality.{In, same_iff, same_refl}
use purels.Js.Text.Splitting.{HasNo, split_by-join}
use purels.Js.Text.Trimming.{trim_of_IsTrimmed}
use purels.RuntimeForm.{
  Draft, Raw, RuntimeGroup, Setting, Settings, amount, change_field, change_fields, changes,
  find_field, flag, is_filled, is_invalid, is_item_end, is_same, is_skipped, json_value, list_items,
  listed, new_value, raw_of, runtime_changes, runtime_draft, runtime_groups, text_items, words,
}
use purels.RuntimeForm.Kinds.{IsItem}

map-trim-of-IsItem : (ss : List Text) → All IsItem ss → map trim ss ≡ ss
map-trim-of-IsItem [] h = refl
map-trim-of-IsItem (s ∷ ss) (h, hs) = ap₂ ◌∷◌ (trim_of_IsTrimmed s h.0) (map-trim-of-IsItem ss hs)

filter-of-IsItem : (ss : List Text) → All IsItem ss → filter is_filled ss ≡ ss
filter-of-IsItem [] h = refl
filter-of-IsItem (s ∷ ss) (h, hs) = rw (h.1) (ap (◌∷◌ s) (filter-of-IsItem ss hs))

HasNo-of-IsItem : (ss : List Text) → All IsItem ss → All (HasNo is_item_end) ss
HasNo-of-IsItem [] h = tt
HasNo-of-IsItem (s ∷ ss) (h, hs) = (h.2, HasNo-of-IsItem ss hs)

-- Lists of items are read back as they were shown.
pub list_items-join : (ss : List Text) → All IsItem ss → list_items (join (10 ∷ []) ss) ≡ ss
unfolding list_items
list_items-join [] h = unfold join split_by trim trim_start_by trim_end_by in refl
list_items-join (s ∷ ss) h =
    ap (λ ps. filter is_filled (map trim ps))
      (split_by-join is_item_end 10 s ss refl (HasNo-of-IsItem (s ∷ ss) h))
    ∙ ap (filter is_filled) (map-trim-of-IsItem (s ∷ ss) h)
    ∙ filter-of-IsItem (s ∷ ss) h

module _ (n : Numbers) where
  open n use {is_safe_integer, to_text_filled, is_safe_integer-number, to_text-number}

  -- A value that the API may have stored: a safe integer, or a list of items.
  abbrev pub IsStored : Option (Setting n) → Type 0
  IsStored none = ⊥
  IsStored (some (amount k)) = is_safe_integer k ≡ true
  IsStored (some (listed ss)) = All IsItem ss
  IsStored (some (words s)) = Unit
  IsStored (some (flag b)) = Unit

  is_invalid-raw_of :
      (old : Option (Setting n)) → IsStored old → is_invalid n old (raw_of n old) ≡ false
  unfolding is_invalid
  is_invalid-raw_of none h = absurd h
  is_invalid-raw_of (some (amount k)) h = rw (to_text_filled k, is_safe_integer-number k, h)
  is_invalid-raw_of (some (listed ss)) h = refl
  is_invalid-raw_of (some (words s)) h = refl
  is_invalid-raw_of (some (flag b)) h = refl

  is_same_of_json :
      (v old : Setting n) → json_value n v ≡ json_value n old → is_same n v (some old) ≡ true
  unfolding is_same
  is_same_of_json v old e = rw e (same_refl (stringify (json_value n old)))

  is_same-raw_of :
      (old : Option (Setting n))
      → IsStored old
      → is_same n (new_value n old (raw_of n old)) old ≡ true
  unfolding new_value
  is_same-raw_of none h = absurd h
  is_same-raw_of (some (amount k)) h = is_same_of_json _ (amount k) (ap num (to_text-number k))
  is_same-raw_of (some (listed ss)) h =
      is_same_of_json _ (listed ss) (ap (λ xs. arr (text_items n xs)) (list_items-join ss h))
  is_same-raw_of (some (words s)) h = is_same_of_json _ (words s) refl
  is_same-raw_of (some (flag b)) h = is_same_of_json _ (flag b) refl

  abbrev IsShown : Settings n → Draft → Text → Type 0
  IsShown saved draft key =
      (find_field draft key ≡ some (raw_of n (find_field saved key)))
      × IsStored (find_field saved key)

  change_fields_shown :
      (saved : Settings n) (draft : Draft) (keys : List Text)
      → All (IsShown saved draft) keys
      → change_fields n saved draft keys ≡ changes []
  unfolding change_fields change_field
  change_fields_shown saved draft [] h = refl
  change_fields_shown saved draft (key ∷ keys) ((shown, stored), hs) =
      elim (Bool-cases (is_skipped draft key)) [
        | inl s ↦ rw s (change_fields_shown saved draft keys hs)
        | inr s ↦
            rw
              (
                s,
                shown,
                is_invalid-raw_of (find_field saved key) stored,
                is_same-raw_of (find_field saved key) stored,
              )
              (change_fields_shown saved draft keys hs)
      ]

  find_field-map :
      (f : Text → Raw) (keys : List Text) (key : Text)
      → In key keys
      → find_field (map (λ k. (k, f k)) keys) key ≡ some (f key)
  unfolding find_field
  find_field-map f [] key h = elim h [ ]
  find_field-map f (k ∷ ks) key h = elim (Bool-cases (same k key)) [
    | inl e ↦ rw e (ap (λ j. some (f j)) ((same_iff k key).0 e))
    | inr e ↦ rw e (elim h [
      | inl p ↦ cc (e, (same_iff k key).1 p)
      | inr later ↦ find_field-map f ks key later
    ])
  ]

  IsShown-keys :
      (saved : Settings n) (draft : Draft) (keys : List Text)
      → ((key : Text) → In key keys → find_field draft key ≡ some (raw_of n (find_field saved key)))
      → All (λ key. IsStored (find_field saved key)) keys
      → All (IsShown saved draft) keys
  IsShown-keys saved draft [] f h = tt
  IsShown-keys saved draft (key ∷ keys) f (h, hs) =
      ((f key (inl refl), h), IsShown-keys saved draft keys (λ j m. f j (inr m)) hs)

  -- The draft that the form starts from, saved without an edit, sends no change and is not
  -- refused, if each key of the group has a saved value whose number is a safe integer and whose
  -- list holds trimmed items that are not empty and have no comma or line feed.
  pub runtime_changes-runtime_draft :
      (saved : Settings n) (group : RuntimeGroup)
      → All (λ key. IsStored (find_field saved key)) (runtime_groups group)
      → runtime_changes n saved (runtime_draft n saved group) group ≡ changes []
  unfolding runtime_changes runtime_draft
  runtime_changes-runtime_draft saved group h = change_fields_shown saved _ (runtime_groups group) (
      IsShown-keys saved _ (runtime_groups group)
        (find_field-map (λ key. raw_of n (find_field saved key)) (runtime_groups group)) h)

-- ===== src/RuntimeForm/Refusals.antt =====
-- When `runtimeChanges` refuses to save.
use purels.Base.{
  Bool, Bool-cases, List, Option, [], false, if◌then◌else◌, inl, inr, none, not, refl, some, ◌&&◌,
  ◌||◌, ◌∙◌, ◌∷◌, ◌≡◌,
}
use purels.Js.Number.{Numbers}
use purels.Js.Text.{Text, is_empty}
use purels.RuntimeForm.{
  Changes, Draft, Raw, RuntimeGroup, Setting, Settings, add_change, amount, change_field,
  change_fields, changes, find_field, flag, invalid, is_invalid, is_same, is_skipped, listed,
  new_value, runtime_changes, runtime_groups, ticked, typed, words,
}

module _ (n : Numbers) where
  open n use {number, is_safe_integer, zero, one}

  -- A drafted number that cannot be saved: an empty text, or no safe integer.
  abbrev pub is_unusable : Option (Setting n) → Option Raw → Bool
  is_unusable (some (amount k)) (some (typed s)) = is_empty s || not (is_safe_integer (number s))
  is_unusable (some (amount k)) (some (ticked b)) = not (is_safe_integer (if b then one else zero))
  is_unusable _ _ = false

  pub is_unusable_lem :
      (old : Option (Setting n)) (raw : Raw) → is_unusable old (some raw) ≡ is_invalid n old raw
  unfolding is_invalid
  is_unusable_lem (some (amount k)) (typed s) = refl
  is_unusable_lem (some (amount k)) (ticked b) = refl
  is_unusable_lem (some (listed ss)) (typed s) = refl
  is_unusable_lem (some (listed ss)) (ticked b) = refl
  is_unusable_lem (some (words t)) (typed s) = refl
  is_unusable_lem (some (words t)) (ticked b) = refl
  is_unusable_lem (some (flag f)) (typed s) = refl
  is_unusable_lem (some (flag f)) (ticked b) = refl
  is_unusable_lem none (typed s) = refl
  is_unusable_lem none (ticked b) = refl

  is_unusable-none : (old : Option (Setting n)) → is_unusable old none ≡ false
  is_unusable-none (some (amount k)) = refl
  is_unusable-none (some (listed ss)) = refl
  is_unusable-none (some (words t)) = refl
  is_unusable-none (some (flag f)) = refl
  is_unusable-none none = refl

  abbrev pub is_faulty : Settings n → Draft → Text → Bool
  is_faulty saved draft key =
      not (is_skipped draft key) && is_unusable (find_field saved key) (find_field draft key)

  abbrev pub refusal : Changes n → Option Text
  refusal (invalid key) = some key
  refusal (changes cs) = none

  abbrev pub first_faulty : Settings n → Draft → List Text → Option Text
  first_faulty saved draft [] = none
  first_faulty saved draft (key ∷ keys) =
      if is_faulty saved draft key then some key else first_faulty saved draft keys

  refusal-add_change :
      (key : Text) (value : Setting n) (rest : Changes n)
      → refusal (add_change n key value rest) ≡ refusal rest
  refusal-add_change key value (invalid k) = refl
  refusal-add_change key value (changes cs) = refl

  refusal-change_field :
      (key : Text) (old : Option (Setting n)) (raw : Option Raw) (rest : Changes n)
      → refusal (change_field n key old raw rest)
        ≡ (if is_unusable old raw then some key else refusal rest)
  unfolding change_field
  refusal-change_field key old none rest = rw (is_unusable-none old)
  refusal-change_field key old (some raw) rest =
      rw (is_unusable_lem old raw) (elim (Bool-cases (is_invalid n old raw)) [
        | inl bad ↦ rw bad
        | inr fine ↦ elim (Bool-cases (is_same n (new_value n old raw) old)) [
          | inl e ↦ rw (fine, e)
          | inr e ↦ rw (fine, e) (refusal-add_change key (new_value n old raw) rest)
        ]
      ])

  refusal-change_fields :
      (saved : Settings n) (draft : Draft) (keys : List Text)
      → refusal (change_fields n saved draft keys) ≡ first_faulty saved draft keys
  unfolding change_fields
  refusal-change_fields saved draft [] = refl
  refusal-change_fields saved draft (k ∷ ks) = elim (Bool-cases (is_skipped draft k)) [
    | inl s ↦ rw s (refusal-change_fields saved draft ks)
    | inr s ↦ rw s (
        refusal-change_field k (find_field saved k) (find_field draft k)
          (change_fields n saved draft ks)
        ∙ rw (refusal-change_fields saved draft ks))
  ]

  -- Saving is refused exactly when some number of the group is drafted as an empty text or as no
  -- safe integer and its control is not disabled; the error names the first such key in the
  -- group's order.
  pub refusal-runtime_changes :
      (saved : Settings n) (draft : Draft) (group : RuntimeGroup)
      → refusal (runtime_changes n saved draft group)
        ≡ first_faulty saved draft (runtime_groups group)
  unfolding runtime_changes
  refusal-runtime_changes saved draft group =
      refusal-change_fields saved draft (runtime_groups group)

-- ===== src/RuntimeForm/Outcomes.antt =====
-- What `runtimeChanges` sends for each key.
use purels.Base.{
  Bool, Bool-cases, List, Option, [], ap, false, if◌then◌else◌, inl, inr, none, refl, some, sym,
  true, ◌||◌, ◌∙◌, ◌∷◌, ◌≡◌,
}
use purels.Csv.Reader.{step}
use purels.Js.Number.{Numbers}
use purels.Js.Text.{Text, includes, same}
use purels.Js.Text.Equality.{same_iff}
use purels.RuntimeForm.{
  Changes, Draft, Raw, RuntimeGroup, Setting, Settings, add_change, change_field, change_fields,
  changes, find_field, invalid, is_invalid, is_same, is_skipped, new_value, runtime_changes,
  runtime_groups,
}

module _ (n : Numbers) where
  -- The change that is due for one key: what the draft holds, read as the saved value's kind, if it
  -- differs from the saved value.
  abbrev pub due : Option (Setting n) → Option Raw → Option (Setting n)
  due old none = none
  due old (some raw) =
      if is_same n (new_value n old raw) old then none else some (new_value n old raw)

  abbrev pub due_change : Settings n → Draft → Text → Option (Setting n)
  due_change saved draft key =
      if is_skipped draft key then none else due (find_field saved key) (find_field draft key)

  abbrev first : Option (Setting n) → Option (Setting n) → Option (Setting n)
  first none o = o
  first (some v) o = some v

  abbrev only_if : Bool → Option (Setting n) → Option (Setting n)
  only_if b o = if b then o else none

  abbrev Follows : Changes n → Text → Option (Setting n) → Settings n → Type 0
  Follows rest j o cs =
      (cs' : Settings n) × (rest ≡ changes cs') × (find_field cs j ≡ first o (find_field cs' j))

  only_if-none : (b : Bool) (o : Option (Setting n)) → first (only_if b none) o ≡ o
  only_if-none true o = refl
  only_if-none false o = refl

  add_change_lem :
      (key : Text) (value : Setting n) (rest : Changes n) (cs : Settings n) (j : Text)
      → add_change n key value rest ≡ changes cs
      → Follows rest j (only_if (same key j) (some value)) cs
  unfolding find_field
  add_change_lem key value (invalid k) cs j h = cc
  add_change_lem key value (changes cs') cs j h =
      let e : (key, value) ∷ cs' ≡ cs = cc in
      (cs', refl, rw (sym e) (elim (Bool-cases (same key j)) [ inl t ↦ rw t | inr f ↦ rw f ]))

  change_field_lem :
      (key : Text) (old : Option (Setting n)) (raw : Option Raw) (rest : Changes n)
      (cs : Settings n) (j : Text)
      → change_field n key old raw rest ≡ changes cs
      → Follows rest j (only_if (same key j) (due old raw)) cs
  unfolding change_field
  change_field_lem key old none rest cs j h =
      (cs, h, sym (only_if-none (same key j) (find_field cs j)))
  change_field_lem key old (some raw) rest cs j h = elim (Bool-cases (is_invalid n old raw)) [
    | inl bad ↦ cc (bad)
    | inr fine ↦ elim (Bool-cases (is_same n (new_value n old raw) old)) [
      | inl e ↦ rw e (cs, rw (fine, e) at h, sym (only_if-none (same key j) (find_field cs j)))
      | inr e ↦ rw e (add_change_lem key (new_value n old raw) rest cs j (rw (fine, e) at h))
    ]
  ]

  first_again : (b : Bool) (o : Option (Setting n)) → first o (only_if b o) ≡ o
  first_again true none = refl
  first_again false none = refl
  first_again b (some v) = refl

  due_of_skipped :
      (saved : Settings n) (draft : Draft) (key : Text)
      → is_skipped draft key ≡ true
      → due_change saved draft key ≡ none
  due_of_skipped saved draft key h = rw h

  due_of_kept :
      (saved : Settings n) (draft : Draft) (key : Text)
      → is_skipped draft key ≡ false
      → due_change saved draft key ≡ due (find_field saved key) (find_field draft key)
  due_of_kept saved draft key h = rw h

  skip_step :
      (saved : Settings n) (draft : Draft) (k : Text) (ks : List Text) (cs : Settings n) (j : Text)
      → is_skipped draft k ≡ true
      → find_field cs j ≡ only_if (includes ks j) (due_change saved draft j)
      → find_field cs j ≡ only_if (same k j || includes ks j) (due_change saved draft j)
  skip_step saved draft k ks cs j s ih = elim (Bool-cases (same k j)) [
    | inr other ↦ rw other ih
    | inl e ↦
        let none_due =
          due_of_skipped saved draft j (ap (is_skipped draft) (sym ((same_iff k j).0 e)) ∙ s) in
        rw e (ih ∙ only_none (includes ks j) none_due ∙ sym none_due)
  ]
    where
      only_none :
          (b : Bool) → due_change saved draft j ≡ none → only_if b (due_change saved draft j) ≡ none
      only_none true h = h
      only_none false h = refl

  keep_step :
      (saved : Settings n) (draft : Draft) (k : Text) (ks : List Text) (cs cs' : Settings n)
      (j : Text)
      → is_skipped draft k ≡ false
      → find_field cs j
        ≡ first
            (only_if (same k j) (due (find_field saved k) (find_field draft k)))
            (find_field cs' j)
      → find_field cs' j ≡ only_if (includes ks j) (due_change saved draft j)
      → find_field cs j ≡ only_if (same k j || includes ks j) (due_change saved draft j)
  keep_step saved draft k ks cs cs' j s step ih = elim (Bool-cases (same k j)) [
    | inr other ↦ rw other ((rw other at step) ∙ ih)
    | inl e ↦
        let this = due_of_kept saved draft k s in
        let moved = ap (due_change saved draft) ((same_iff k j).0 e) in
        rw e (
          (rw e at step)
          ∙ ap (λ o. first o (find_field cs' j)) (sym this ∙ moved)
          ∙ ap (first (due_change saved draft j)) ih
          ∙ first_again (includes ks j) (due_change saved draft j))
  ]

  find_field-change_fields :
      (saved : Settings n) (draft : Draft) (keys : List Text) (cs : Settings n) (j : Text)
      → change_fields n saved draft keys ≡ changes cs
      → find_field cs j ≡ only_if (includes keys j) (due_change saved draft j)
  unfolding change_fields includes
  find_field-change_fields saved draft [] cs j h =
      let e : [] ≡ cs = cc in ap (λ fs. find_field fs j) (sym e) ∙ unfold find_field in refl
  find_field-change_fields saved draft (k ∷ ks) cs j h = elim (Bool-cases (is_skipped draft k)) [
    | inl s ↦
        skip_step saved draft k ks cs j s (find_field-change_fields saved draft ks cs j (rw s at h))
    | inr s ↦
        let (cs', rest, step) =
          change_field_lem k (find_field saved k) (find_field draft k)
            (change_fields n saved draft ks) cs j (rw s at h) in
        keep_step saved draft k ks cs cs' j s step
          (find_field-change_fields saved draft ks cs' j rest)
  ]

  -- When saving is not refused, the change that is sent for a key is the one that is due for it
  -- by the draft and the saved value if the key belongs to the group, and none otherwise.
  pub find_field-runtime_changes :
      (saved : Settings n) (draft : Draft) (group : RuntimeGroup) (cs : Settings n) (key : Text)
      → runtime_changes n saved draft group ≡ changes cs
      → find_field cs key
        ≡ (if includes (runtime_groups group) key then due_change saved draft key else none)
  unfolding runtime_changes
  find_field-runtime_changes saved draft group cs key h =
      find_field-change_fields saved draft (runtime_groups group) cs key h

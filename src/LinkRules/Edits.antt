-- ===== src/LinkRules/Edits.antt =====
-- What every sequence of edits keeps.
use purels.Base.{
  All, All-append, Bool-cases, List, [], ap, arith, false, inl, inr, leb, length, length-append,
  refl, suc, true, zero, ℕ, ◌<◌, ◌∷◌, ◌≡◌, ◌≤◌, ◌⊎◌,
}
use purels.Js.Text.{Text, includes, same, text}
use purels.LinkRules.{
  LinkRuleInput, add_rule, admits_value, devices, empty_rule, match_types, max_rules, remove_rule,
  set_destination_url, set_match_type, set_match_value, set_redirect_code, update,
}

-- A rule that the API's vocabulary allows.
abbrev pub IsOffered : ℕ → Type 0
IsOffered code = (code ≡ 0) ⊎ (code ≡ 302) ⊎ (code ≡ 301)

pub record IsRule (r : LinkRuleInput) : Type 0 where
  pub typed : includes match_types r.match_type ≡ true
  pub valued : admits_value r r.match_value ≡ true
  pub coded : IsOffered r.redirect_code

pub record IsRules (rules : List LinkRuleInput) : Type 0 where
  pub capped : length rules ≤ max_rules
  pub each : All IsRule rules

-- The controls are lists of options, but for the two text fields. A new value is entered where the
-- rule at that place admits it.
abbrev AdmitsAt : Text → List LinkRuleInput → ℕ → Type 0
AdmitsAt value [] index = Unit
AdmitsAt value (r ∷ rules) zero = admits_value r value ≡ true
AdmitsAt value (r ∷ rules) (suc index) = AdmitsAt value rules index

pub data Edit : List LinkRuleInput → List LinkRuleInput → Type 0 where
  adds : (rules : List LinkRuleInput) → Edit rules (add_rule rules)
  removes : (rules : List LinkRuleInput) (index : ℕ) → Edit rules (remove_rule rules index)
  chooses_type :
      (rules : List LinkRuleInput) (index : ℕ) (chosen : Text)
      → includes match_types chosen ≡ true
      → Edit rules (update (set_match_type chosen) rules index)
  enters_value :
      (rules : List LinkRuleInput) (index : ℕ) (value : Text)
      → AdmitsAt value rules index
      → Edit rules (update (set_match_value value) rules index)
  enters_url :
      (rules : List LinkRuleInput) (index : ℕ) (value : Text)
      → Edit rules (update (set_destination_url value) rules index)
  chooses_code :
      (rules : List LinkRuleInput) (index : ℕ) (code : ℕ)
      → IsOffered code
      → Edit rules (update (set_redirect_code code) rules index)

pub data Edits (rules : List LinkRuleInput) : List LinkRuleInput → Type 0 where
  none_yet : Edits rules rules
  then_edit : {s t : List LinkRuleInput} → Edits rules s → Edit s t → Edits rules t

length-update :
    (f : LinkRuleInput → LinkRuleInput) (rules : List LinkRuleInput) (index : ℕ)
    → length (update f rules index) ≡ length rules
unfolding update
length-update f [] index = refl
length-update f (r ∷ rules) zero = refl
length-update f (r ∷ rules) (suc index) = ap suc (length-update f rules index)

All-update :
    (f : LinkRuleInput → LinkRuleInput) (rules : List LinkRuleInput) (index : ℕ)
    → ((r : LinkRuleInput) → IsRule r → IsRule (f r))
    → All IsRule rules
    → All IsRule (update f rules index)
unfolding update
All-update f [] index k h = tt
All-update f (r ∷ rules) zero k (h, hs) = (k r h, hs)
All-update f (r ∷ rules) (suc index) k (h, hs) = (h, All-update f rules index k hs)

update-IsRules :
    (f : LinkRuleInput → LinkRuleInput) (rules : List LinkRuleInput) (index : ℕ)
    → ((r : LinkRuleInput) → IsRule r → IsRule (f r))
    → IsRules rules
    → IsRules (update f rules index)
update-IsRules f rules index k v = record {
  capped = omega (arith, length-update f rules index, v.capped);
  each = All-update f rules index k v.each;
}

value-IsRule :
    (r : LinkRuleInput) (value : Text)
    → IsRule r
    → admits_value r value ≡ true
    → IsRule (set_match_value value r)
value-IsRule r value v h = record { typed = v.typed; valued = h; coded = v.coded }

values-IsRule :
    (rules : List LinkRuleInput) (index : ℕ) (value : Text)
    → AdmitsAt value rules index
    → All IsRule rules
    → All IsRule (update (set_match_value value) rules index)
unfolding update
values-IsRule [] index value a h = tt
values-IsRule (r ∷ rules) zero value a (h, hs) = (value-IsRule r value h a, hs)
values-IsRule (r ∷ rules) (suc index) value a (h, hs) = (h, values-IsRule rules index value a hs)

type-IsRule :
    (chosen : Text) (r : LinkRuleInput)
    → includes match_types chosen ≡ true
    → IsRule r
    → IsRule (set_match_type chosen r)
type-IsRule chosen r h v = record {
  typed = h;
  valued = fits (Bool-cases (same chosen (text "device")));
  coded = v.coded;
}
  where
    has_mobile : includes devices (text "mobile") ≡ true
    has_mobile = unfold includes same in refl

    fits :
        (same chosen (text "device") ≡ true) ⊎ (same chosen (text "device") ≡ false)
        → admits_value (set_match_type chosen r) (set_match_type chosen r).match_value ≡ true
    fits (inl e) = rw e has_mobile
    fits (inr e) = rw e

remove-IsRules :
    (rules : List LinkRuleInput) (index : ℕ)
    → All IsRule rules
    → All IsRule (remove_rule rules index) × (length (remove_rule rules index) ≤ length rules)
unfolding remove_rule
remove-IsRules [] index h = (tt, omega arith)
remove-IsRules (r ∷ rules) zero (h, hs) = (hs, omega arith)
remove-IsRules (r ∷ rules) (suc index) (h, hs) =
    let (a, b) = remove-IsRules rules index hs in ((h, a), omega (arith, b))

empty-IsRule : IsRule empty_rule
empty-IsRule = record {
  typed = unfold includes same in refl;
  valued = unfold includes same in refl;
  coded = inl refl;
}

add-IsRules : (rules : List LinkRuleInput) → IsRules rules → IsRules (add_rule rules)
unfolding add_rule
add-IsRules rules v = elim (Bool-cases (leb max_rules (length rules))) [
  | inl full ↦ rw full v
  | inr room ↦ rw room (record {
    capped = omega (arith, length-append rules (empty_rule ∷ []), below (length rules) room);
    each = All-append IsRule rules (empty_rule ∷ []) v.each (empty-IsRule, tt);
  })
]
  where
    below : (k : ℕ) → leb 10 k ≡ false → k < 10
    below k h = ground arith

Edit-IsRules : {s t : List LinkRuleInput} → Edit s t → IsRules s → IsRules t
Edit-IsRules (adds rules) v = add-IsRules rules v
Edit-IsRules (removes rules index) v =
    let (a, b) = remove-IsRules rules index v.each in
    record { capped = omega (arith, b, v.capped); each = a }
Edit-IsRules (chooses_type rules index chosen h) v =
    update-IsRules (set_match_type chosen) rules index (λ r w. type-IsRule chosen r h w) v
Edit-IsRules (enters_value rules index value a) v = record {
  capped = omega (arith, length-update (set_match_value value) rules index, v.capped);
  each = values-IsRule rules index value a v.each;
}
Edit-IsRules (enters_url rules index value) v =
    update-IsRules (set_destination_url value) rules index
      (λ r w. record { typed = w.typed; valued = w.valued; coded = w.coded }) v
Edit-IsRules (chooses_code rules index code h) v =
    update-IsRules (set_redirect_code code) rules index
      (λ r w. record { typed = w.typed; valued = w.valued; coded = h }) v

-- Every sequence of edits of at most ten well-formed rules gives at most ten well-formed rules,
-- if each entered value is one that its control lets through: a rule has one of the match types
-- and one of the offered redirect codes, a device rule names a device, and the value of any
-- other rule has at most 255 units.
pub Edits-IsRules : {rules t : List LinkRuleInput} → Edits rules t → IsRules rules → IsRules t
Edits-IsRules none_yet v = v
Edits-IsRules (then_edit es e) v = Edit-IsRules e (Edits-IsRules es v)

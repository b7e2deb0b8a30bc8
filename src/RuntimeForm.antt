-- ===== src/RuntimeForm.antt =====
-- web/src/lib/runtime-settings-form.ts: the groups of the runtime settings, the draft of a group and
-- the changes that saving the draft sends.
pub mod Outcomes
pub mod Refusals
pub mod Kinds
pub mod Unedited
pub mod Editor
use purels.Base.{
  Bool, List, Option, String, [], false, filter, if◌then◌else◌, map, none, not, some, true, zero, ℕ,
  ◌&&◌, ◌==◌, ◌||◌, ◌∷◌,
}
use purels.Js.Json.{Items, Value, arr, bool, cons, nil, num, str, stringify}
use purels.Js.Number.{Numbers}
use purels.Js.Text.{Text, is_empty, join, same, split_by, starts_with, text, trim}

pub data RuntimeGroup : Type 0 where
  creation redirects maintenance registration traffic statistics : RuntimeGroup

-- `runtimeGroups`.
abbrev pub runtime_groups : RuntimeGroup → List Text
runtime_groups creation =
    text "alias_mode" ∷ text "unique_urls" ∷ text "max_links_per_user" ∷ text "short_domains" ∷ []
runtime_groups redirects =
    text "forward_query" ∷ text "fallback_url" ∷ text "destination_denylist" ∷ []
runtime_groups maintenance =
    text "health_check_enabled"
    ∷ text "health_check_interval_seconds"
    ∷ text "auto_prune_expired"
    ∷ text "prune_grace_seconds"
    ∷ []
runtime_groups registration = text "registration_enabled" ∷ text "totp_enabled" ∷ []
runtime_groups traffic =
    text "rate_limit_enabled"
    ∷ text "rate_limit_login"
    ∷ text "rate_limit_register"
    ∷ text "rate_limit_2fa"
    ∷ text "rate_limit_oidc"
    ∷ text "rate_limit_api"
    ∷ text "rate_limit_redirect"
    ∷ []
runtime_groups statistics = text "count_bots" ∷ []

-- `o[key]` on an object of settings or of drafted values: `none` is undefined.
module _ {V : Type 0} where
  unfoldable pub find_field : List (Text × V) → Text → Option V
  unfolding same
  find_field [] key = none
  find_field ((k, v) ∷ fs) key = if same k key then some v else find_field fs key

-- A drafted value is what an input or a switch holds.
pub data Raw : Type 0 where
  typed : Text → Raw
  ticked : Bool → Raw

abbrev pub Draft : Type 0
Draft = List (Text × Raw)

-- `/[\n,]/`.
abbrev pub is_item_end : ℕ → Bool
is_item_end c = c == 10 || c == b','

abbrev raw_text : Raw → Text
raw_text (typed s) = s
raw_text (ticked b) = if b then text "true" else text "false"

abbrev is_off : Draft → String → Bool
is_off draft key = elim (find_field draft (text key)) [ some (ticked false) ↦ true | _ ↦ false ]

-- Disabled dependent controls.
unfoldable pub is_skipped : Draft → Text → Bool
unfolding find_field same starts_with
is_skipped draft key =
    (same key (text "health_check_interval_seconds") && is_off draft "health_check_enabled")
    || (same key (text "prune_grace_seconds") && is_off draft "auto_prune_expired")
    || (starts_with (text "rate_limit_") key
        && not (same key (text "rate_limit_enabled"))
        && is_off draft "rate_limit_enabled")

abbrev pub is_filled : Text → Bool
is_filled s = not (is_empty s)

-- `String(raw).split(/[\n,]/).map(item => item.trim()).filter(Boolean)`.
unfoldable pub list_items : Text → List Text
unfolding split_by trim
list_items s = filter is_filled (map trim (split_by is_item_end s))

module _ (n : Numbers) where
  open n use {Num, number, to_text, is_safe_integer, zero, one}

  -- A value of `RuntimeSettingsInput`.
  pub data Setting : Type 0 where
    flag : Bool → Setting
    amount : Num → Setting
    words : Text → Setting
    listed : List Text → Setting

  abbrev pub Settings : Type 0
  Settings = List (Text × Setting)

  abbrev pub raw_of : Option Setting → Raw
  raw_of none = typed (text "undefined")
  raw_of (some (flag b)) = ticked b
  raw_of (some (amount k)) = typed (to_text k)
  raw_of (some (words s)) = typed s
  raw_of (some (listed ss)) = typed (join (10 ∷ []) ss)

  -- `runtimeDraft`.
  unfoldable pub runtime_draft : Settings → RuntimeGroup → Draft
  unfolding find_field join
  runtime_draft settings group =
      map (λ key. (key, raw_of (find_field settings key))) (runtime_groups group)

  -- `Number(raw)`.
  abbrev pub raw_number : Raw → Num
  raw_number (typed s) = number s
  raw_number (ticked b) = if b then one else zero

  abbrev raw_value : Raw → Setting
  raw_value (typed s) = words s
  raw_value (ticked b) = flag b

  unfoldable pub new_value : Option Setting → Raw → Setting
  unfolding list_items
  new_value (some (listed ss)) raw = listed (list_items (raw_text raw))
  new_value (some (amount k)) raw = amount (raw_number raw)
  new_value (some (words s)) raw = raw_value raw
  new_value (some (flag b)) raw = raw_value raw
  new_value none raw = raw_value raw

  abbrev is_blank : Raw → Bool
  is_blank (typed s) = is_empty s
  is_blank (ticked b) = false

  -- `raw === "" || !Number.isSafeInteger(value)` for a number.
  unfoldable pub is_invalid : Option Setting → Raw → Bool
  is_invalid (some (amount k)) raw = is_blank raw || not (is_safe_integer (raw_number raw))
  is_invalid (some (listed ss)) raw = false
  is_invalid (some (words s)) raw = false
  is_invalid (some (flag b)) raw = false
  is_invalid none raw = false

  abbrev text_items : List Text → Items
  text_items [] = nil
  text_items (s ∷ ss) = cons (str s) (text_items ss)

  -- The numbers that are compared are finite, so their JSON is their text.
  abbrev json_value : Setting → Value
  json_value (flag b) = bool b
  json_value (amount k) = num (to_text k)
  json_value (words s) = str s
  json_value (listed ss) = arr (text_items ss)

  -- `JSON.stringify(value) === JSON.stringify(old)`.
  unfoldable pub is_same : Setting → Option Setting → Bool
  unfolding same stringify
  is_same value none = false
  is_same value (some old) = same (stringify (json_value value)) (stringify (json_value old))

  -- The changes, in the order of the group, or the key that the error names.
  pub data Changes : Type 0 where
    invalid : Text → Changes
    changes : Settings → Changes

  abbrev pub add_change : Text → Setting → Changes → Changes
  add_change key value (invalid k) = invalid k
  add_change key value (changes cs) = changes ((key, value) ∷ cs)

  unfoldable pub change_field : Text → Option Setting → Option Raw → Changes → Changes
  unfolding new_value is_invalid is_same
  change_field key old none rest = rest
  change_field key old (some raw) rest =
      if is_invalid old raw
      then invalid key
      else if is_same (new_value old raw) old
      then rest
      else add_change key (new_value old raw) rest

  unfoldable pub change_fields : Settings → Draft → List Text → Changes
  unfolding is_skipped find_field change_field
  change_fields saved draft [] = changes []
  change_fields saved draft (key ∷ keys) =
      let rest = change_fields saved draft keys in
      if is_skipped draft key
      then rest
      else change_field key (find_field saved key) (find_field draft key) rest

  -- `runtimeChanges`.
  unfoldable pub runtime_changes : Settings → Draft → RuntimeGroup → Changes
  unfolding change_fields
  runtime_changes saved draft group = change_fields saved draft (runtime_groups group)

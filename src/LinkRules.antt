-- ===== src/LinkRules.antt =====
-- web/src/components/link-rules-editor.tsx: the editor of a link's divert rules.
pub mod Edits
use purels.Base.{Bool, List, [], if◌then◌else◌, leb, length, suc, zero, ℕ, ◌++◌, ◌∷◌}
use purels.Js.Text.{Text, includes, same, text}

pub record LinkRuleInput : Type 0 where
  pub match_type : Text
  pub match_value : Text
  pub destination_url : Text
  pub redirect_code : ℕ

-- `MAX_RULES`.
abbrev pub max_rules : ℕ
max_rules = 10

-- The values of `MATCH_TYPES` and `DEVICES`, and the redirect codes on offer.
abbrev pub match_types : List Text
match_types = text "ua_contains" ∷ text "device" ∷ []

abbrev pub devices : List Text
devices = text "mobile" ∷ text "tablet" ∷ text "desktop" ∷ text "bot" ∷ text "unknown" ∷ []

abbrev pub empty_rule : LinkRuleInput
empty_rule = record {
  match_type = text "ua_contains";
  match_value = [];
  destination_url = [];
  redirect_code = 0;
}

-- `update`: the rule at the position is patched.
unfoldable pub update :
    (LinkRuleInput → LinkRuleInput) → List LinkRuleInput → ℕ → List LinkRuleInput
update change [] index = []
update change (r ∷ rules) zero = change r ∷ rules
update change (r ∷ rules) (suc index) = r ∷ update change rules index

-- `rules.filter((_, position) => position !== index)`.
unfoldable pub remove_rule : List LinkRuleInput → ℕ → List LinkRuleInput
remove_rule [] index = []
remove_rule (r ∷ rules) zero = rules
remove_rule (r ∷ rules) (suc index) = r ∷ remove_rule rules index

-- The button is disabled at the cap.
unfoldable pub add_rule : List LinkRuleInput → List LinkRuleInput
add_rule rules = if leb max_rules (length rules) then rules else rules ++ (empty_rule ∷ [])

abbrev pub set_match_type : Text → LinkRuleInput → LinkRuleInput
set_match_type chosen r = record r {
  match_type = chosen;
  match_value = if same chosen (text "device") then text "mobile" else [];
}

abbrev pub set_match_value : Text → LinkRuleInput → LinkRuleInput
set_match_value value r = record r { match_value = value }

abbrev pub set_destination_url : Text → LinkRuleInput → LinkRuleInput
set_destination_url value r = record r { destination_url = value }

abbrev pub set_redirect_code : ℕ → LinkRuleInput → LinkRuleInput
set_redirect_code code r = record r { redirect_code = code }

abbrev pub is_device : LinkRuleInput → Bool
is_device r = same r.match_type (text "device")

-- What the control of the match value lets through: a device, or a text within its length.
abbrev pub admits_value : LinkRuleInput → Text → Bool
admits_value r value = if is_device r then includes devices value else leb (length value) 255

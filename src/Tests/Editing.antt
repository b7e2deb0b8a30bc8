-- ===== src/Tests/Editing.antt =====
-- The rules editor and the settings tabs at concrete inputs.
use purels.Base.{All, List, [], arith, length, refl, true, ◌∷◌, ◌≡◌, ◌≤◌}
use purels.Js.Text.{Text, includes, same, text}
use purels.LinkRules.{LinkRuleInput, add_rule, empty_rule, set_match_type, update}
use purels.LinkRules.Edits.{Edit, Edits, Edits-IsRules, IsRules, none_yet, then_edit}
use purels.SettingsTabs.{TabGroup, is_shown, is_tab_active, visible_tabs}
use purels.SettingsTabs.Active.{active_tabs, active_tabs_bound}

abbrev one_rule : List LinkRuleInput
one_rule = empty_rule ∷ []

abbrev device_rule : List LinkRuleInput
device_rule = update (set_match_type (text "device")) (add_rule []) 0

device_rule-Edits : Edits [] device_rule
unfolding includes
device_rule-Edits =
    then_edit (then_edit none_yet (Edit.adds []))
      (Edit.chooses_type (add_rule []) 0 (text "device") refl)

nil-IsRules : IsRules []
nil-IsRules = record { capped = omega arith; each = tt }

Edits-IsRules_example : IsRules device_rule
Edits-IsRules_example = Edits-IsRules device_rule-Edits nil-IsRules

device_rule_run :
    device_rule ≡ record empty_rule { match_type = text "device"; match_value = text "mobile" } ∷ []
unfolding update add_rule same
device_rule_run = refl

abbrev link_keeper : List Text
link_keeper = text "settings:manage" ∷ []

active_tabs_bound_example :
    (length (
        active_tabs
          (text "/home/settings/links/redirects")
          (visible_tabs TabGroup.links link_keeper))
      ≤ 1)
    × All (λ t. is_shown link_keeper t ≡ true) (visible_tabs TabGroup.links link_keeper)
active_tabs_bound_example =
    active_tabs_bound TabGroup.links link_keeper (text "/home/settings/links/redirects")

one_tab :
    length (
      active_tabs (text "/home/settings/links/redirects") (visible_tabs TabGroup.links link_keeper))
    ≡ 1
unfolding visible_tabs is_tab_active
one_tab = refl

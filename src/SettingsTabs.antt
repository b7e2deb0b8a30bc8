-- ===== src/SettingsTabs.antt =====
-- web/src/components/settings/settings-tabs.tsx: the tabs of a settings page.
pub mod Active
use purels.Base.{Bool, List, String, [], any, filter, not, ◌&&◌, ◌++◌, ◌||◌, ◌∷◌}
use purels.Js.Text.{Text, includes, same, starts_with, text}

pub data TabGroup : Type 0 where
  links registration access : TabGroup

pub record SettingsTab : Type 0 where
  pub href : Text
  pub label_key : Text
  pub any_scopes : List Text

abbrev tab : String → String → List Text → SettingsTab
tab href label scopes = record { href = text href; label_key = text label; any_scopes = scopes }

abbrev manage : List Text
manage = text "settings:manage" ∷ []

unfoldable pub tabs : TabGroup → List SettingsTab
tabs TabGroup.links =
    tab "/home/settings/links" "settings.nav.creation" manage
    ∷ tab "/home/settings/links/redirects" "settings.nav.redirects" manage
    ∷ tab "/home/settings/links/maintenance" "settings.nav.maintenance" manage
    ∷ []
tabs TabGroup.registration =
    tab "/home/settings/registration" "settings.nav.publicRegistration"
      (text "settings:manage" ∷ text "captcha:manage" ∷ [])
    ∷ tab "/home/settings/oidc" "settings.nav.thirdParty" (text "oidc:manage" ∷ [])
    ∷ []
tabs TabGroup.access =
    tab "/home/users" "nav.users" (text "users:manage" ∷ [])
    ∷ tab "/home/settings/roles" "settings.roles.title" (text "roles:manage" ∷ [])
    ∷ []

abbrev pub links_href : Text
links_href = text "/home/settings/links"

abbrev pub is_shown : List Text → SettingsTab → Bool
is_shown scopes t = any (includes scopes) t.any_scopes

unfoldable pub visible_tabs : TabGroup → List Text → List SettingsTab
unfolding tabs includes
visible_tabs group scopes = filter (is_shown scopes) (tabs group)

unfoldable pub is_tab_active : Text → SettingsTab → Bool
unfolding same starts_with
is_tab_active pathname t =
    same pathname t.href
    || (not (same t.href links_href) && starts_with (t.href ++ text "/") pathname)

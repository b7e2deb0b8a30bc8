-- ===== src/Navigation/Entries.antt =====
-- web/src/components/admin-navigation.ts: `adminNavSections`.
use purels.Base.{List, [], map, none, some, ◌∷◌}
use purels.Js.Text.{Text, text}
use purels.Navigation.{AdminNavItem, AdminNavSection, is_permitted, redirect, visible_section}

abbrev pub workspace_items : List AdminNavItem
workspace_items =
    (record {
      href = text "/home";
      label_key = text "nav.overview";
      description_key = none;
      icon = text "grid";
      scope = none;
      any_scopes = none;
    })
    ∷ (record {
      href = text "/home/links";
      label_key = text "nav.links";
      description_key = none;
      icon = text "link";
      scope = none;
      any_scopes = none;
    })
    ∷ (record {
      href = text "/home/stats";
      label_key = text "nav.stats";
      description_key = none;
      icon = text "chart";
      scope = none;
      any_scopes = none;
    })
    ∷ (record {
      href = text "/home/audit";
      label_key = text "nav.audit";
      description_key = none;
      icon = text "list";
      scope = some (text "audit:read");
      any_scopes = none;
    })
    ∷ []

abbrev pub site_items : List AdminNavItem
site_items =
    (record {
      href = text "/home/settings/links";
      label_key = text "settings.nav.links";
      description_key = some (text "settings.nav.linksDescription");
      icon = text "link";
      scope = some (text "settings:manage");
      any_scopes = none;
    })
    ∷ (record {
      href = text "/home/settings/registration";
      label_key = text "settings.nav.registration";
      description_key = some (text "settings.nav.registrationDescription");
      icon = text "lock";
      scope = none;
      any_scopes = some (text "settings:manage" ∷ text "captcha:manage" ∷ text "oidc:manage" ∷ []);
    })
    ∷ (record {
      href = text "/home/users";
      label_key = text "settings.nav.access";
      description_key = some (text "settings.nav.accessDescription");
      icon = text "user";
      scope = none;
      any_scopes = some (text "users:manage" ∷ text "roles:manage" ∷ []);
    })
    ∷ (record {
      href = text "/home/settings/traffic";
      label_key = text "settings.nav.traffic";
      description_key = some (text "settings.nav.trafficDescription");
      icon = text "shield";
      scope = some (text "settings:manage");
      any_scopes = none;
    })
    ∷ (record {
      href = text "/home/settings/analytics";
      label_key = text "settings.nav.analytics";
      description_key = some (text "settings.nav.analyticsDescription");
      icon = text "pulse";
      scope = none;
      any_scopes = some (text "settings:manage" ∷ text "analytics:manage" ∷ []);
    })
    ∷ []

abbrev pub primary_section : AdminNavSection
primary_section = record {
  id = text "primary";
  label_key = none;
  icon = none;
  href = none;
  groups =
      (record {
        id = text "workspace";
        label_key = none;
        description_key = none;
        items = workspace_items;
      })
      ∷ [];
}

abbrev pub settings_section : AdminNavSection
settings_section = record {
  id = text "settings";
  label_key = some (text "shell.settings");
  icon = some (text "settings");
  href = some (text "/home/settings");
  groups =
      (record { id = text "site"; label_key = none; description_key = none; items = site_items })
      ∷ [];
}

abbrev pub admin_nav_sections : List AdminNavSection
admin_nav_sections = primary_section ∷ settings_section ∷ []

-- `getVisibleNavigation`.
unfoldable pub get_visible_navigation : List Text → List AdminNavSection
unfolding is_permitted redirect
get_visible_navigation scopes = map (visible_section scopes) admin_nav_sections

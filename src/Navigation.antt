-- ===== src/Navigation.antt =====
-- web/src/components/admin-navigation.ts: the entries of the console's navigation, those that an
-- account sees, and the one that is active.
pub mod Entries
pub mod Search
pub mod Visible
pub mod Permitted
pub mod Exclusive
pub mod Active
pub mod Reachable
use purels.Base.{
  Bool, List, Option, [], any, drop, filter, if◌then◌else◌, length, ltb, map, none, not, some, true,
  ◌&&◌, ◌++◌, ◌||◌, ◌∷◌,
}
use purels.Js.Text.{Text, includes, is_empty, same, starts_with, text}

pub record AdminNavItem : Type 0 where
  pub href : Text
  pub label_key : Text
  pub description_key : Option Text
  pub icon : Text
  pub scope : Option Text
  pub any_scopes : Option (List Text)

pub record AdminNavGroup : Type 0 where
  pub id : Text
  pub label_key : Option Text
  pub description_key : Option Text
  pub items : List AdminNavItem

pub record AdminNavSection : Type 0 where
  pub id : Text
  pub label_key : Option Text
  pub icon : Option Text
  pub href : Option Text
  pub groups : List AdminNavGroup

-- `!item.scope || scopes.includes(item.scope)`, and the same for `anyScopes`.
abbrev has_scope : List Text → Option Text → Bool
has_scope scopes none = true
has_scope scopes (some s) = is_empty s || includes scopes s

abbrev has_any_scope : List Text → Option (List Text) → Bool
has_any_scope scopes none = true
has_any_scope scopes (some any_of) = any (includes scopes) any_of

unfoldable pub is_permitted : List Text → AdminNavItem → Bool
unfolding includes
is_permitted scopes item = has_scope scopes item.scope && has_any_scope scopes item.any_scopes

abbrev pub users_href : Text
users_href = text "/home/users"

abbrev pub roles_href : Text
roles_href = text "/home/settings/roles"

-- Without `users:manage` the entry of the accounts leads to the roles.
unfoldable pub redirect : List Text → AdminNavItem → AdminNavItem
unfolding same includes
redirect scopes item =
    if same item.href users_href && not (includes scopes (text "users:manage"))
    then record item { href = roles_href }
    else item

abbrev pub visible_group : List Text → AdminNavGroup → AdminNavGroup
visible_group scopes group = record group {
  items = map (redirect scopes) (filter (is_permitted scopes) group.items);
}

abbrev pub has_items : AdminNavGroup → Bool
has_items group = ltb 0 (length group.items)

abbrev pub visible_section : List Text → AdminNavSection → AdminNavSection
visible_section scopes section = record section {
  groups = filter has_items (map (visible_group scopes) section.groups);
}

-- `routeAliases`.
abbrev pub route_aliases : List (Text × Text)
route_aliases =
    (text "/home/settings/runtime", text "/home/settings/links")
    ∷ (text "/home/settings/captcha", text "/home/settings/registration")
    ∷ (text "/home/settings/oidc", text "/home/settings/registration")
    ∷ (text "/home/settings/roles", text "/home/users")
    ∷ []

abbrev pub is_under : Text → Text → Bool
is_under route pathname = same pathname route || starts_with (route ++ text "/") pathname

unfoldable pub resolve : List (Text × Text) → Text → Text
unfolding same starts_with
resolve [] pathname = pathname
resolve ((route, parent) ∷ aliases) pathname =
    if is_under route pathname
    then parent ++ drop (length route) pathname
    else resolve aliases pathname

unfoldable pub navigation_path : Text → Text
unfolding resolve
navigation_path pathname = resolve route_aliases pathname

unfoldable pub is_nav_item_active : Text → Text → Bool
unfolding navigation_path same starts_with
is_nav_item_active pathname href =
    if same (navigation_path href) (text "/home")
    then same (navigation_path pathname) (navigation_path href)
    else is_under (navigation_path href) (navigation_path pathname)

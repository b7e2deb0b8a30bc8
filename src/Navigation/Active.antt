-- ===== src/Navigation/Active.antt =====
-- The active entry of the navigation.
use purels.Base.{
  &&_true, Bool-cases, List, [], ap, arith, filter, if◌then◌else◌, inl, inr, length, map, not, refl,
  sym, true, ◌&&◌, ◌+◌, ◌∙◌, ◌∷◌, ◌≡◌, ◌≤◌,
}
use purels.Js.Text.{Text, includes, same, text}
use purels.Js.Text.Equality.{same_iff}
use purels.Navigation.{
  AdminNavItem, is_nav_item_active, is_permitted, navigation_path, redirect, roles_href, users_href,
}
use purels.Navigation.Entries.{admin_nav_sections, get_visible_navigation}
use purels.Navigation.Exclusive.{all_apart, covering, covering_bound, covers}
use purels.Navigation.Visible.{get_visible_navigation-shown, nav_items}

abbrev home : Text
home = text "/home"

abbrev target : AdminNavItem → Text
target item = navigation_path item.href

roles_target : navigation_path roles_href ≡ navigation_path users_href
unfolding navigation_path
roles_target = refl

target-redirect :
    (scopes : List Text) (item : AdminNavItem) → target (redirect scopes item) ≡ target item
unfolding redirect
target-redirect scopes item =
    elim (Bool-cases (same item.href users_href && not (includes scopes (text "users:manage")))) [
      | inl e ↦ rw e (
          roles_target
          ∙ ap navigation_path (
              sym (
                (same_iff item.href users_href).0 ((&&_true (same item.href users_href) _).0 e).0)))
      | inr e ↦ rw e
    ]

abbrev pub active_items : Text → List AdminNavItem → List AdminNavItem
active_items pathname items = filter (λ i. is_nav_item_active pathname i.href) items

is_nav_item_active_lem :
    (pathname href : Text)
    → is_nav_item_active pathname href
      ≡ covers home (navigation_path href) (navigation_path pathname)
unfolding is_nav_item_active
is_nav_item_active_lem pathname href = refl

active_cons :
    (pathname : Text) (i : AdminNavItem) (items : List AdminNavItem)
    → length (active_items pathname (i ∷ items))
      ≡ (if covers home (target i) (navigation_path pathname) then 1 else 0)
        + length (active_items pathname items)
active_cons pathname i items =
    rw (is_nav_item_active_lem pathname i.href)
      (elim (Bool-cases (covers home (target i) (navigation_path pathname))) [
        | inl e ↦ rw e (omega arith)
        | inr e ↦ rw e (omega arith)
      ])

active_le_covering :
    (scopes : List Text) (pathname : Text) (items : List AdminNavItem)
    → length (active_items pathname (map (redirect scopes) (filter (is_permitted scopes) items)))
      ≤ length (covering home (navigation_path pathname) (map target items))
active_le_covering scopes pathname [] = omega arith
active_le_covering scopes pathname (i ∷ items) = elim (Bool-cases (is_permitted scopes i)) [
  | inl e ↦
      let rest = map (redirect scopes) (filter (is_permitted scopes) items) in
      rw e (
        rw (active_cons pathname (redirect scopes i) rest, target-redirect scopes i)
          (elim (Bool-cases (covers home (target i) (navigation_path pathname))) [
            | inl f ↦ rw f (omega (arith, active_le_covering scopes pathname items))
            | inr f ↦ rw f (omega (arith, active_le_covering scopes pathname items))
          ]))
  | inr e ↦ rw e (elim (Bool-cases (covers home (target i) (navigation_path pathname))) [
    | inl f ↦ rw f (omega (arith, active_le_covering scopes pathname items))
    | inr f ↦ rw f (active_le_covering scopes pathname items)
  ])
]

targets_apart : all_apart home (map target (nav_items admin_nav_sections)) ≡ true
unfolding navigation_path
targets_apart = refl

-- For every set of scopes and every path, at most one entry of the visible navigation is active.
pub active_items_bound :
    (scopes : List Text) (pathname : Text)
    → length (active_items pathname (nav_items (get_visible_navigation scopes))) ≤ 1
active_items_bound scopes pathname = rw ((get_visible_navigation-shown scopes).0) (
    omega (
      arith,
      active_le_covering scopes pathname (nav_items admin_nav_sections),
      covering_bound home (navigation_path pathname) (map target (nav_items admin_nav_sections))
          targets_apart,
    ))

-- ===== src/Navigation/Visible.antt =====
-- What `getVisibleNavigation` shows to an account, and what it hides.
use purels.Base.{
  All, Bool, Bool-cases, List, [], ap, ap₂, arith, false, filter, filter-All, inl, inr, length, ltb,
  map, refl, sym, true, ◌++◌, ◌∙◌, ◌∷◌, ◌≡◌,
}
use purels.Js.Text.{Text}
use purels.Navigation.{
  AdminNavGroup, AdminNavItem, AdminNavSection, has_items, is_permitted, redirect, visible_group,
  visible_section,
}
use purels.Navigation.Entries.{admin_nav_sections, get_visible_navigation}

abbrev pub group_items : List AdminNavGroup → List AdminNavItem
group_items [] = []
group_items (g ∷ gs) = g.items ++ group_items gs

-- The entries of all sections, in their order.
abbrev pub nav_items : List AdminNavSection → List AdminNavItem
nav_items [] = []
nav_items (s ∷ ss) = group_items s.groups ++ nav_items ss

abbrev shown : List Text → List AdminNavItem → List AdminNavItem
shown scopes items = map (redirect scopes) (filter (is_permitted scopes) items)

filter-append :
    (p : AdminNavItem → Bool) (xs ys : List AdminNavItem)
    → filter p (xs ++ ys) ≡ filter p xs ++ filter p ys
filter-append p [] ys = refl
filter-append p (x ∷ xs) ys = elim (Bool-cases (p x)) [
  | inl e ↦ rw e (ap (◌∷◌ x) (filter-append p xs ys))
  | inr e ↦ rw e (filter-append p xs ys)
]

map_append :
    (f : AdminNavItem → AdminNavItem) (xs ys : List AdminNavItem)
    → map f (xs ++ ys) ≡ map f xs ++ map f ys
map_append f [] ys = refl
map_append f (x ∷ xs) ys = ap (◌∷◌ (f x)) (map_append f xs ys)

shown-append :
    (scopes : List Text) (xs ys : List AdminNavItem)
    → shown scopes (xs ++ ys) ≡ shown scopes xs ++ shown scopes ys
shown-append scopes xs ys =
    ap (map (redirect scopes)) (filter-append (is_permitted scopes) xs ys)
    ∙ map_append (redirect scopes) (filter (is_permitted scopes) xs)
        (filter (is_permitted scopes) ys)

-- A group that is dropped holds no entry.
group_items_kept : (gs : List AdminNavGroup) → group_items (filter has_items gs) ≡ group_items gs
group_items_kept [] = refl
group_items_kept (g ∷ gs) = elim (Bool-cases (has_items g)) [
  | inl e ↦ rw e (ap (λ items. g.items ++ items) (group_items_kept gs))
  | inr e ↦
      rw e (group_items_kept gs ∙ ap (λ items. items ++ group_items gs) (sym (no_items g.items e)))
]
  where
    no_items : (items : List AdminNavItem) → ltb 0 (length items) ≡ false → items ≡ []
    no_items [] h = refl
    no_items (x ∷ items) h = ground arith

group_items-visible :
    (scopes : List Text) (gs : List AdminNavGroup)
    → group_items (map (visible_group scopes) gs) ≡ shown scopes (group_items gs)
group_items-visible scopes [] = refl
group_items-visible scopes (g ∷ gs) =
    ap (λ items. shown scopes g.items ++ items) (group_items-visible scopes gs)
    ∙ sym (shown-append scopes g.items (group_items gs))

nav_items-visible :
    (scopes : List Text) (ss : List AdminNavSection)
    → nav_items (map (visible_section scopes) ss) ≡ shown scopes (nav_items ss)
nav_items-visible scopes [] = refl
nav_items-visible scopes (s ∷ ss) =
    ap₂ ◌++◌
      (group_items_kept (map (visible_group scopes) s.groups) ∙ group_items-visible scopes s.groups)
      (nav_items-visible scopes ss)
    ∙ sym (shown-append scopes (group_items s.groups) (nav_items ss))

abbrev pub FillsGroups : AdminNavSection → Type 0
FillsGroups s = All (λ g. has_items g ≡ true) s.groups

FillsGroups-visible :
    (scopes : List Text) (ss : List AdminNavSection)
    → All FillsGroups (map (visible_section scopes) ss)
FillsGroups-visible scopes [] = tt
FillsGroups-visible scopes (s ∷ ss) =
    (filter-All has_items (map (visible_group scopes) s.groups), FillsGroups-visible scopes ss)

-- The entries of the visible navigation are, in their order, the entries that the scopes permit,
-- with the accounts entry redirected where it has to be, and no group without entries is left.
pub get_visible_navigation-shown :
    (scopes : List Text)
    → (nav_items (get_visible_navigation scopes)
        ≡ map (redirect scopes) (filter (is_permitted scopes) (nav_items admin_nav_sections)))
      × All FillsGroups (get_visible_navigation scopes)
unfolding get_visible_navigation
get_visible_navigation-shown scopes =
    (nav_items-visible scopes admin_nav_sections, FillsGroups-visible scopes admin_nav_sections)

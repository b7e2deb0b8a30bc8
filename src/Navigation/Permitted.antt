-- ===== src/Navigation/Permitted.antt =====
-- Which scopes of an account open which entry of the navigation.
use purels.Base.{
  All, Bool, Bool-cases, List, [], arith, false, filter, if◌then◌else◌, inl, inr, map, none, not,
  refl, some, true, ◌&&◌, ◌||◌, ◌↔◌, ◌∷◌, ◌≡◌, ◌⊎◌,
}
use purels.Js.Text.{Text, includes, same, text}
use purels.Js.Text.Equality.{In, includes_iff}
use purels.Navigation.{AdminNavItem, is_permitted, redirect, roles_href, users_href}
use purels.Navigation.Entries.{admin_nav_sections, get_visible_navigation}
use purels.Navigation.Visible.{FillsGroups, get_visible_navigation-shown, nav_items}

-- The entries by the scopes that an account holds. Someone who may manage roles but not users
-- has the entry of the accounts lead to the roles.
abbrev pub IsShown : List Text → Text → Type 0
IsShown scopes href =
    (text "/home" ≡ href)
    ⊎ (text "/home/links" ≡ href)
    ⊎ (text "/home/stats" ≡ href)
    ⊎ (In (text "audit:read") scopes × (text "/home/audit" ≡ href))
    ⊎ (In (text "settings:manage") scopes × (text "/home/settings/links" ≡ href))
    ⊎ ((In (text "settings:manage") scopes
          ⊎ In (text "captcha:manage") scopes
          ⊎ In (text "oidc:manage") scopes)
        × (text "/home/settings/registration" ≡ href))
    ⊎ ((In (text "users:manage") scopes × (text "/home/users" ≡ href))
        ⊎ ((¬ In (text "users:manage") scopes)
            × In (text "roles:manage") scopes
            × (text "/home/settings/roles" ≡ href)))
    ⊎ (In (text "settings:manage") scopes × (text "/home/settings/traffic" ≡ href))
    ⊎ ((In (text "settings:manage") scopes ⊎ In (text "analytics:manage") scopes)
        × (text "/home/settings/analytics" ≡ href))

abbrev pub hrefs : List AdminNavItem → List Text
hrefs items = map (λ (i : AdminNavItem). i.href) items

-- The same by the entries themselves.
abbrev LeadsTo : List Text → Text → List AdminNavItem → Type 0
LeadsTo scopes href [] = ⊥
LeadsTo scopes href (i ∷ items) =
    ((is_permitted scopes i ≡ true) × ((redirect scopes i).href ≡ href)) ⊎ LeadsTo scopes href items

infixr 3 ◌⊕◌
◌⊕◌ : {A B C D : Type 0} → A ↔ C → B ↔ D → (A ⊎ B) ↔ (C ⊎ D)
(f, f') ⊕ (g, g') = (
  λ h. elim h [ inl a ↦ inl (f a) | inr b ↦ inr (g b) ],
  λ h. elim h [ inl a ↦ inl (f' a) | inr b ↦ inr (g' b) ],
)

or_false : {A B : Type 0} → A ↔ B → (A ⊎ ⊥) ↔ B
or_false (f, f') = (λ h. elim h [ inl a ↦ f a | inr b ↦ absurd b ], λ b. inl (f' b))

always : {A : Type 0} → (◌≡◌ {A = Bool} true true × A) ↔ A
always = (λ h. h.1, λ a. (refl, a))

by_test : {b : Bool} {H A : Type 0} → (b ≡ true) ↔ H → ((b ≡ true) × A) ↔ (H × A)
by_test (f, g) = (λ h. (f h.0, h.1), λ h. (g h.0, h.1))

-- The entry of the accounts, by its two scopes.
accounts_entry :
    (users roles : Bool) {U R : Type 0} (own other : AdminNavItem) (href : Text)
    → (users ≡ true) ↔ U
    → (roles ≡ true) ↔ R
    → (((users || (roles || false)) ≡ true) × ((if not users then other else own).href ≡ href))
      ↔ ((U × (own.href ≡ href)) ⊎ ((¬ U) × R × (other.href ≡ href)))
accounts_entry true roles own other href (f, f') (g, g') = (
  λ h. inl (f refl, h.1),
  λ h. elim h [ inl (_, e) ↦ (refl, e) | inr (n, _, _) ↦ absurd (n (f refl)) ],
)
accounts_entry false true own other href (f, f') (g, g') = (
  λ h. inr (λ u. cc (f' u), g refl, h.1),
  λ h. elim h [ inl (u, _) ↦ cc (f' u) | inr (_, _, e) ↦ (refl, e) ],
)
accounts_entry false false own other href (f, f') (g, g') =
    (λ h. cc (h.0), λ h. elim h [ inl (u, _) ↦ cc (f' u) | inr (_, r, _) ↦ cc (g' r) ])

In-hrefs :
    (scopes : List Text) (href : Text) (items : List AdminNavItem)
    → In href (hrefs (map (redirect scopes) (filter (is_permitted scopes) items)))
      ↔ LeadsTo scopes href items
In-hrefs scopes href [] = (λ h. h, λ h. h)
In-hrefs scopes href (i ∷ items) =
    let (to, from) = In-hrefs scopes href items in
    elim (Bool-cases (is_permitted scopes i)) [
      | inl on ↦ rw on ((always.1, always.0) ⊕ (to, from))
      | inr off ↦ rw off (λ h. inr (to h), λ h. elim h [ inl p ↦ cc (p.0) | inr q ↦ from q ])
    ]

abbrev accounts_item : AdminNavItem
accounts_item = record {
  href = users_href;
  label_key = text "settings.nav.access";
  description_key = some (text "settings.nav.accessDescription");
  icon = text "user";
  scope = none;
  any_scopes = some (text "users:manage" ∷ text "roles:manage" ∷ []);
}

accounts_item-LeadsTo :
    (scopes : List Text) (href : Text)
    → ((is_permitted scopes accounts_item ≡ true) × ((redirect scopes accounts_item).href ≡ href))
      ↔ ((In (text "users:manage") scopes × (text "/home/users" ≡ href))
          ⊎ ((¬ In (text "users:manage") scopes)
              × In (text "roles:manage") scopes
              × (text "/home/settings/roles" ≡ href)))
unfolding is_permitted redirect same
accounts_item-LeadsTo scopes href =
    accounts_entry (includes scopes (text "users:manage")) (includes scopes (text "roles:manage"))
      accounts_item (record accounts_item { href = roles_href }) href
      (includes_iff scopes (text "users:manage")) (includes_iff scopes (text "roles:manage"))

LeadsTo-entries :
    (scopes : List Text) (href : Text)
    → LeadsTo scopes href (nav_items admin_nav_sections) ↔ IsShown scopes href
unfolding is_permitted redirect same
LeadsTo-entries scopes href =
    always
    ⊕ always
    ⊕ always
    ⊕ opened_by (text "audit:read")
    ⊕ opened_by (text "settings:manage")
    ⊕ by_test (
        ground (
          arith,
          includes_iff scopes (text "settings:manage"),
          includes_iff scopes (text "captcha:manage"),
          includes_iff scopes (text "oidc:manage"),
        ))
    ⊕ accounts_item-LeadsTo scopes href
    ⊕ opened_by (text "settings:manage")
    ⊕ or_false (
        by_test (
          ground (
            arith,
            includes_iff scopes (text "settings:manage"),
            includes_iff scopes (text "analytics:manage"),
          )))
  where
    opened_by :
        {A : Type 0} (s : Text) → (((includes scopes s && true) ≡ true) × A) ↔ (In s scopes × A)
    opened_by s = by_test (ground (arith, includes_iff scopes s))

-- An address is among the visible entries exactly if the scopes open it: the overview, the links
-- and the statistics for everyone, the audit log with audit:read, and each page of the settings
-- with one of its own scopes, where the accounts entry leads to the roles for an account that
-- manages roles but not users. No group is shown without entries.
pub get_visible_navigation-IsShown :
    (scopes : List Text) (href : Text)
    → (In href (hrefs (nav_items (get_visible_navigation scopes))) ↔ IsShown scopes href)
      × All FillsGroups (get_visible_navigation scopes)
get_visible_navigation-IsShown scopes href =
    let (shown_lem, filled_lem) = get_visible_navigation-shown scopes in
    let (to, from) = In-hrefs scopes href (nav_items admin_nav_sections) in
    let (to', from') = LeadsTo-entries scopes href in
    (rw shown_lem (λ h. to' (to h), λ h. from (from' h)), filled_lem)

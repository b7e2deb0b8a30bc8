-- ===== src/Navigation/Reachable.antt =====
-- The settings search beside the navigation.
use purels.Base.{
  &&_true, All, Bool, Bool-cases, List, Option, [], any, ap, every, filter, inl, inr, map, none,
  not, refl, some, sym, true, ◌&&◌, ◌∙◌, ◌∷◌, ◌≡◌, ◌⊎◌,
}
use purels.Js.Text.{Text, includes, same, text}
use purels.Js.Text.Equality.{same_iff}
use purels.Navigation.{AdminNavItem, has_any_scope, has_scope, is_permitted, redirect, users_href}
use purels.Navigation.Entries.{admin_nav_sections, get_visible_navigation}
use purels.Navigation.Search.{
  SettingsSearchEntry, get_visible_settings_search_entries, settings_search_entries,
}
use purels.Navigation.Visible.{get_visible_navigation-shown, nav_items}

-- Some entry of the navigation carries the label.
abbrev pub Shows : Text → List AdminNavItem → Type 0
Shows label [] = ⊥
Shows label (i ∷ items) = (i.label_key ≡ label) ⊎ Shows label items

-- An entry that one scope opens, and that carries the label.
abbrev opens : Text → Text → AdminNavItem → Bool
opens scope label i = same i.label_key label && is_permitted (scope ∷ []) i

includes-any :
    (scopes : List Text) (s : Text) (any_of : List Text)
    → includes scopes s ≡ true
    → any (includes (s ∷ [])) any_of ≡ true
    → any (includes scopes) any_of ≡ true
unfolding includes
includes-any scopes s [] h k = cc
includes-any scopes s (x ∷ xs) h k = elim (Bool-cases (same s x)) [
  | inl e ↦ let found = ap (includes scopes) (sym ((same_iff s x).0 e)) ∙ h in rw found
  | inr e ↦
      let rest = includes-any scopes s xs h (rw e at k) in
      elim (Bool-cases (includes scopes x)) [ inl f ↦ rw f | inr f ↦ rw f rest ]
]

is_permitted_mono :
    (scopes : List Text) (s : Text) (i : AdminNavItem)
    → includes scopes s ≡ true
    → is_permitted (s ∷ []) i ≡ true
    → is_permitted scopes i ≡ true
unfolding is_permitted
is_permitted_mono scopes s i h k = both i.scope i.any_scopes k
  where
    one : (o : Option Text) → has_scope (s ∷ []) o ≡ true → has_scope scopes o ≡ true
    one none p = refl
    one (some []) p = refl
    one (some (c ∷ t)) p = elim (Bool-cases (same s (c ∷ t))) [
      | inl e ↦ ap (includes scopes) (sym ((same_iff s (c ∷ t)).0 e)) ∙ h
      | inr e ↦ cc (rw e at p)
    ]

    many :
        (o : Option (List Text)) → has_any_scope (s ∷ []) o ≡ true → has_any_scope scopes o ≡ true
    many none p = refl
    many (some xs) p = includes-any scopes s xs h p

    both :
        (o : Option Text) (a : Option (List Text))
        → has_scope (s ∷ []) o && has_any_scope (s ∷ []) a ≡ true
        → has_scope scopes o && has_any_scope scopes a ≡ true
    both o a p =
        let (x, y) = (&&_true (has_scope (s ∷ []) o) (has_any_scope (s ∷ []) a)).0 p in
        (&&_true (has_scope scopes o) (has_any_scope scopes a)).1 (one o x, many a y)

label-redirect :
    (scopes : List Text) (i : AdminNavItem) → (redirect scopes i).label_key ≡ i.label_key
unfolding redirect
label-redirect scopes i =
    elim (Bool-cases (same i.href users_href && not (includes scopes (text "users:manage")))) [
      | inl e ↦ rw e
      | inr e ↦ rw e
    ]

Shows-shown :
    (scopes : List Text) (s label : Text) (items : List AdminNavItem)
    → includes scopes s ≡ true
    → any (opens s label) items ≡ true
    → Shows label (map (redirect scopes) (filter (is_permitted scopes) items))
Shows-shown scopes s label [] h k = cc
Shows-shown scopes s label (i ∷ items) h k = elim (Bool-cases (opens s label i)) [
  | inl e ↦
      let (l, p) = (&&_true (same i.label_key label) (is_permitted (s ∷ []) i)).0 e in
      rw (is_permitted_mono scopes s i h p)
        (inl (label-redirect scopes i ∙ (same_iff i.label_key label).0 l))
  | inr e ↦
      let rest = Shows-shown scopes s label items h (rw e at k) in
      elim (Bool-cases (is_permitted scopes i)) [ inl f ↦ rw f (inr rest) | inr f ↦ rw f rest ]
]

abbrev is_opened : SettingsSearchEntry → Bool
is_opened e = any (opens e.scope e.category_key) (nav_items admin_nav_sections)

entries_opened : every is_opened settings_search_entries ≡ true
unfolding settings_search_entries is_permitted
entries_opened = refl

Shows-entries :
    (scopes : List Text) (es : List SettingsSearchEntry)
    → every is_opened es ≡ true
    → All
        (λ e. Shows e.category_key (nav_items (get_visible_navigation scopes)))
        (filter (λ e. includes scopes e.scope) es)
Shows-entries scopes [] h = tt
Shows-entries scopes (e ∷ es) h =
    let (k, ks) = (&&_true (is_opened e) (every is_opened es)).0 h in
    let rest = Shows-entries scopes es ks in
    elim (Bool-cases (includes scopes e.scope)) [
      | inl f ↦ rw f (
        rw ((get_visible_navigation-shown scopes).0)
            (Shows-shown scopes e.scope e.category_key (nav_items admin_nav_sections) f k),
        rest,
      )
      | inr f ↦ rw f rest
    ]

-- For every set of scopes, each entry that the settings search shows belongs to a category whose
-- label some entry of the visible navigation carries.
pub search-Shows :
    (scopes : List Text)
    → All
        (λ e. Shows e.category_key (nav_items (get_visible_navigation scopes)))
        (get_visible_settings_search_entries scopes)
unfolding get_visible_settings_search_entries
search-Shows scopes = Shows-entries scopes settings_search_entries entries_opened

-- ===== src/SettingsTabs/Active.antt =====
-- The active tab, and the tabs shown, of a page of settings.
use purels.Base.{
  All, Bool, Bool-cases, List, [], arith, false, filter, filter-All, inl, inr, length, refl, true,
  ◌||◌, ◌∷◌, ◌≡◌, ◌≤◌,
}
use purels.Js.Text.{Text, same, starts_with}
use purels.Navigation.Exclusive.{all_apart, covering, covering_bound, covers}
use purels.SettingsTabs.{
  SettingsTab, TabGroup, is_shown, is_tab_active, links_href, tabs, visible_tabs,
}

abbrev hrefs : List SettingsTab → List Text
hrefs [] = []
hrefs (t ∷ ts) = t.href ∷ hrefs ts

abbrev pub active_tabs : Text → List SettingsTab → List SettingsTab
active_tabs pathname ts = filter (is_tab_active pathname) ts

is_tab_active_lem :
    (pathname : Text) (t : SettingsTab)
    → is_tab_active pathname t ≡ covers links_href t.href pathname
unfolding is_tab_active
is_tab_active_lem pathname t = elim (Bool-cases (same t.href links_href)) [
  | inl e ↦ rw e (no_more (same pathname t.href))
  | inr e ↦ rw e
]
  where
    no_more : (b : Bool) → b || false ≡ b
    no_more true = refl
    no_more false = refl

active-le :
    (pathname : Text) (scopes : List Text) (ts : List SettingsTab)
    → length (active_tabs pathname (filter (is_shown scopes) ts))
      ≤ length (covering links_href pathname (hrefs ts))
active-le pathname scopes [] = omega arith
active-le pathname scopes (t ∷ ts) =
    let ih = active-le pathname scopes ts in
    elim (Bool-cases (is_shown scopes t)) [
      | inl shown ↦ rw shown (
          rw (is_tab_active_lem pathname t) (elim (Bool-cases (covers links_href t.href pathname)) [
            | inl e ↦ rw e (omega (arith, ih))
            | inr e ↦ rw e (omega (arith, ih))
          ]))
      | inr hidden ↦ rw hidden (elim (Bool-cases (covers links_href t.href pathname)) [
        | inl e ↦ rw e (omega (arith, ih))
        | inr e ↦ rw e (omega (arith, ih))
      ])
    ]

hrefs_apart : (group : TabGroup) → all_apart links_href (hrefs (tabs group)) ≡ true
unfolding tabs same starts_with
hrefs_apart TabGroup.links = refl
hrefs_apart TabGroup.registration = refl
hrefs_apart TabGroup.access = refl

-- For every group, set of scopes and path, at most one of the visible tabs is active, and each
-- visible tab has a scope among the given ones.
pub active_tabs_bound :
    (group : TabGroup) (scopes : List Text) (pathname : Text)
    → (length (active_tabs pathname (visible_tabs group scopes)) ≤ 1)
      × All (λ t. is_shown scopes t ≡ true) (visible_tabs group scopes)
unfolding visible_tabs
active_tabs_bound group scopes pathname = (
  omega (
    arith,
    active-le pathname scopes (tabs group),
    covering_bound links_href pathname (hrefs (tabs group)) (hrefs_apart group),
  ),
  filter-All (is_shown scopes) (tabs group),
)

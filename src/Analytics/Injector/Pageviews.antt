-- ===== src/Analytics/Injector/Pageviews.antt =====
-- `RoutePageviews`: the effect that reports client-side navigations.
use purels.Analytics.Config.{AnalyticsConfig}
use purels.Base.{
  &&_true, Bool, Bool-cases, List, [], arith, false, if◌then◌else◌, inl, inr, not, not-true, sym,
  true, ◌&&◌, ◌++◌, ◌∷◌, ◌≡◌, ◌≢◌, ◌⊎◌,
}
use purels.Js.Text.{Text, is_empty, same, text}
use purels.Js.Text.Equality.{is_empty_iff, same_iff, same_refl}

-- What the effect finds in the window when it runs.
pub record Window : Type 0 where
  pub has_gtag : Bool
  pub has_paq : Bool
  pub pathname : Text
  pub search : Text
  pub href : Text
  pub title : Text

pub data Call : Type 0 where
  gtag_page_view : Text → Call
  paq_push : List Text → Call

unfoldable pub gtag_calls : AnalyticsConfig → Window → List Call
gtag_calls c w =
    if not (is_empty c.ga4_measurement_id && is_empty c.google_tag_id) && w.has_gtag
    then gtag_page_view (w.pathname ++ w.search) ∷ []
    else []

unfoldable pub paq_calls : AnalyticsConfig → Window → List Call
paq_calls c w =
    if not (is_empty c.matomo_url) && w.has_paq
    then paq_push (text "setCustomUrl" ∷ w.href ∷ [])
      ∷ paq_push (text "setDocumentTitle" ∷ w.title ∷ [])
      ∷ paq_push (text "trackPageView" ∷ [])
      ∷ []
    else []

-- One run of the effect: `lastPath.current` and the calls that it makes.
unfoldable pub route_effect : AnalyticsConfig → Window → Text → Text → Text × List Call
unfolding same gtag_calls paq_calls
route_effect c w last_path pathname =
    if same last_path pathname then (last_path, []) else (pathname, gtag_calls c w ++ paq_calls c w)

-- The runs of a mounted component: each with the path that `usePathname` returned.
unfoldable pub route_effects : AnalyticsConfig → Text → List (Window × Text) → List (List Call)
unfolding route_effect
route_effects c last_path [] = []
route_effects c last_path ((w, pathname) ∷ runs) =
    (route_effect c w last_path pathname).1
    ∷ route_effects c (route_effect c w last_path pathname).0 runs

-- The mount seeds the reference with the first path, and the first run sees that path.
unfoldable pub route_pageviews :
    AnalyticsConfig → Window → Text → List (Window × Text) → List (List Call)
unfolding route_effects
route_pageviews c w first runs = route_effects c first ((w, first) ∷ runs)

-- The page view of gtag: due if an id of gtag is configured and its script has loaded.
pub data IsGtagReport (c : AnalyticsConfig) (w : Window) : List Call → Type 0 where
  viewed :
      (c.ga4_measurement_id ≢ []) ⊎ (c.google_tag_id ≢ [])
      → w.has_gtag ≡ true
      → IsGtagReport c w (gtag_page_view (w.pathname ++ w.search) ∷ [])
  unloaded : w.has_gtag ≡ false → IsGtagReport c w []
  unused : c.ga4_measurement_id ≡ [] → c.google_tag_id ≡ [] → IsGtagReport c w []

-- The same of Matomo, which is first told where it is.
pub data IsPaqReport (c : AnalyticsConfig) (w : Window) : List Call → Type 0 where
  viewed :
      c.matomo_url ≢ []
      → w.has_paq ≡ true
      → IsPaqReport c w (
          paq_push (text "setCustomUrl" ∷ w.href ∷ [])
          ∷ paq_push (text "setDocumentTitle" ∷ w.title ∷ [])
          ∷ paq_push (text "trackPageView" ∷ [])
          ∷ [])
  unloaded : w.has_paq ≡ false → IsPaqReport c w []
  unused : c.matomo_url ≡ [] → IsPaqReport c w []

pub data IsReport (c : AnalyticsConfig) (w : Window) : List Call → Type 0 where
  both :
      (gtag paq : List Call)
      → IsGtagReport c w gtag
      → IsPaqReport c w paq
      → IsReport c w (gtag ++ paq)

-- The calls of the runs after one that saw `before`: a report where the path has changed.
pub data Reports (c : AnalyticsConfig)
    : Text → List (Window × Text) → List (List Call) → Type 0 where
  ends : (before : Text) → Reports c before [] []
  stays :
      (before pathname : Text) (w : Window) (runs : List (Window × Text)) (calls : List (List Call))
      → pathname ≡ before
      → Reports c before runs calls
      → Reports c before ((w, pathname) ∷ runs) ([] ∷ calls)
  changes :
      (before pathname : Text) (w : Window) (runs : List (Window × Text)) (report : List Call)
      (calls : List (List Call))
      → pathname ≢ before
      → IsReport c w report
      → Reports c pathname runs calls
      → Reports c before ((w, pathname) ∷ runs) (report ∷ calls)

one_filled : (s t : Text) → (is_empty s && is_empty t) ≡ false → (s ≢ []) ⊎ (t ≢ [])
one_filled [] [] h = cc
one_filled [] (c ∷ t) h = inr (λ e. cc)
one_filled (c ∷ s) t h = inl (λ e. cc)

gtag_calls-IsGtagReport : (c : AnalyticsConfig) (w : Window) → IsGtagReport c w (gtag_calls c w)
unfolding gtag_calls
gtag_calls-IsGtagReport c w =
    elim (Bool-cases
      (not (is_empty c.ga4_measurement_id && is_empty c.google_tag_id) && w.has_gtag)) [
        | inl reported ↦
            let (named, on) = (&&_true _ w.has_gtag).0 reported in
            rw reported (
              IsGtagReport.viewed
                (one_filled c.ga4_measurement_id c.google_tag_id ((not-true _).0 named)) on)
        | inr idle ↦ rw idle (elim (Bool-cases w.has_gtag) [
          | inr off ↦ IsGtagReport.unloaded off
          | inl on ↦
              IsGtagReport.unused (ground (arith, is_empty_iff c.ga4_measurement_id))
                (ground (arith, is_empty_iff c.google_tag_id))
        ])
      ]

paq_calls-IsPaqReport : (c : AnalyticsConfig) (w : Window) → IsPaqReport c w (paq_calls c w)
unfolding paq_calls
paq_calls-IsPaqReport c w = elim (Bool-cases (not (is_empty c.matomo_url) && w.has_paq)) [
  | inl reported ↦
      let (_, on) = (&&_true _ w.has_paq).0 reported in
      rw reported (IsPaqReport.viewed (ground (arith, is_empty_iff c.matomo_url)) on)
  | inr idle ↦ rw idle (elim (Bool-cases w.has_paq) [
    | inr off ↦ IsPaqReport.unloaded off
    | inl on ↦ IsPaqReport.unused (ground (arith, is_empty_iff c.matomo_url))
  ])
]

route_effects-Reports :
    (c : AnalyticsConfig) (last_path : Text) (runs : List (Window × Text))
    → Reports c last_path runs (route_effects c last_path runs)
unfolding route_effects
route_effects-Reports c last_path [] = Reports.ends last_path
route_effects-Reports c last_path ((w, pathname) ∷ runs) =
    elim (Bool-cases (same last_path pathname)) [
      | inl e ↦ rw e (
          Reports.stays last_path pathname w runs _ (sym ((same_iff last_path pathname).0 e))
            (route_effects-Reports c last_path runs))
      | inr e ↦ rw e (
          Reports.changes last_path pathname w runs _ _
            (ground (arith, same_iff last_path pathname))
            (IsReport.both _ _ (gtag_calls-IsGtagReport c w) (paq_calls-IsPaqReport c w))
            (route_effects-Reports c pathname runs))
    ]

-- The first run of the mounted component makes no call, and each later run makes calls only
-- where its path differs from the path of the run before it: there a page view by gtag if GA4 or
-- a Google tag is configured and gtag has loaded, and after it the three pushes of Matomo if its
-- URL is configured and its queue exists.
pub route_pageviews-Reports :
    (c : AnalyticsConfig) (w : Window) (first : Text) (runs : List (Window × Text))
    → (calls : List (List Call)) × (route_pageviews c w first runs ≡ [] ∷ calls)
      × Reports c first runs calls
unfolding route_pageviews
route_pageviews-Reports c w first runs = (
  route_effects c first runs,
  unfold route_effects in rw (same_refl first),
  route_effects-Reports c first runs,
)

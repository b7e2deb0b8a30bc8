-- ===== src/Analytics/Inertness.antt =====
-- The markup that the injector renders: its strings, tags and attributes (lib/analytics-injector.tsx).
use purels.Analytics.Config.{AnalyticsConfig}
use purels.Analytics.Injector.Snippets.{
  Piece, ScriptElement, analytics_injector, clarity_script, clarity_snippet, clarity_snippet_pieces,
  embedded, fixed, google_tag_script, gtag_snippet, gtag_snippet_pieces, gtm_script, gtm_snippet,
  gtm_snippet_pieces, matomo_script, matomo_snippet, matomo_snippet_pieces, piece, render_if,
  script,
}
use purels.Analytics.Script.{json_for_script}
use purels.Analytics.Script.Decoding.{All-json_for_script, IsInert}
use purels.Base.{
  All, All-append, Bool, List, Option, [], arith, every, none, not, refl, some, true, ℕ, ◌&&◌, ◌++◌,
  ◌==◌, ◌∷◌, ◌≡◌, ◌≢◌,
}
use purels.Js.Text.{Text, text}

-- No angle bracket.
abbrev pub NoMarkup : Text → Type 0
NoMarkup s = All (λ c. (c ≢ b'<') × (c ≢ b'>')) s

is_plain : ℕ → Bool
is_plain c = not (c == b'<') && not (c == b'>')

NoMarkup-of_every : (s : Text) → every is_plain s ≡ true → NoMarkup s
unfolding is_plain
NoMarkup-of_every [] h = tt
NoMarkup-of_every (c ∷ s) h = (ground arith, NoMarkup-of_every s (ground arith))

NoMarkup-of_inert : (s : Text) → All IsInert s → NoMarkup s
NoMarkup-of_inert [] h = tt
NoMarkup-of_inert (c ∷ s) (h, hs) = ((h.0, h.1), NoMarkup-of_inert s hs)

-- The fixed parts of the source have no angle bracket.
fixed_plain : Piece → Bool
fixed_plain (fixed s) = every is_plain (text s)
fixed_plain (embedded v) = true

piece-NoMarkup : (p : Piece) → fixed_plain p ≡ true → NoMarkup (piece p)
unfolding piece fixed_plain
piece-NoMarkup (fixed s) h = NoMarkup-of_every (text s) h
piece-NoMarkup (embedded v) h = NoMarkup-of_inert (json_for_script v) (All-json_for_script v)

script-NoMarkup : (ps : List Piece) → every fixed_plain ps ≡ true → NoMarkup (script ps)
unfolding script
script-NoMarkup [] h = tt
script-NoMarkup (p ∷ ps) h =
    All-append _ (piece p) (script ps) (piece-NoMarkup p (ground arith))
      (script-NoMarkup ps (ground arith))

gtag_snippet-NoMarkup : (tag_id : Text) → NoMarkup (gtag_snippet tag_id)
unfolding gtag_snippet
gtag_snippet-NoMarkup tag_id =
    script-NoMarkup (gtag_snippet_pieces tag_id) (unfold fixed_plain is_plain in refl)

gtm_snippet-NoMarkup : (id : Text) → NoMarkup (gtm_snippet id)
unfolding gtm_snippet
gtm_snippet-NoMarkup id =
    script-NoMarkup (gtm_snippet_pieces id) (unfold fixed_plain is_plain in refl)

matomo_snippet-NoMarkup : (base_url site_id : Text) → NoMarkup (matomo_snippet base_url site_id)
unfolding matomo_snippet
matomo_snippet-NoMarkup base_url site_id =
    script-NoMarkup (matomo_snippet_pieces base_url site_id) (unfold fixed_plain is_plain in refl)

clarity_snippet-NoMarkup : (id : Text) → NoMarkup (clarity_snippet id)
unfolding clarity_snippet
clarity_snippet-NoMarkup id =
    script-NoMarkup (clarity_snippet_pieces id) (unfold fixed_plain is_plain in refl)

abbrev IsClosed : ScriptElement → Type 0
IsClosed e = NoMarkup e.html

-- A list of optional elements, closed element by element.
render_if-IsClosed :
    (configured id html : Text) (rest : List ScriptElement)
    → NoMarkup html
    → All IsClosed rest
    → All IsClosed (render_if configured id html ++ rest)
render_if-IsClosed [] id html rest h k = k
render_if-IsClosed (c ∷ s) id html rest h k = (h, k)

last_IsClosed :
    (configured id html : Text) → NoMarkup html → All IsClosed (render_if configured id html)
last_IsClosed [] id html h = tt
last_IsClosed (c ∷ s) id html h = (h, tt)

-- Whatever a configuration holds, no script body that the injector renders has an angle bracket,
-- so none can close its element or open another.
pub analytics_injector-NoMarkup :
    (config : Option AnalyticsConfig) → All (λ e. NoMarkup e.html) (analytics_injector config)
unfolding analytics_injector
analytics_injector-NoMarkup none = tt
analytics_injector-NoMarkup (some c) =
    render_if-IsClosed c.ga4_measurement_id (text "purels-analytics-ga4")
      (gtag_snippet c.ga4_measurement_id)
      (gtm_script c ++ (google_tag_script c ++ (matomo_script c ++ clarity_script c)))
      (gtag_snippet-NoMarkup c.ga4_measurement_id)
      (render_if-IsClosed c.gtm_container_id (text "purels-analytics-gtm")
        (gtm_snippet c.gtm_container_id)
        (google_tag_script c ++ (matomo_script c ++ clarity_script c))
        (gtm_snippet-NoMarkup c.gtm_container_id)
        (render_if-IsClosed c.google_tag_id (text "purels-analytics-google-tag")
          (gtag_snippet c.google_tag_id) (matomo_script c ++ clarity_script c)
          (gtag_snippet-NoMarkup c.google_tag_id)
          (render_if-IsClosed c.matomo_url (text "purels-analytics-matomo")
            (matomo_snippet c.matomo_url c.matomo_site_id) (clarity_script c)
            (matomo_snippet-NoMarkup c.matomo_url c.matomo_site_id)
            (last_IsClosed c.clarity_project_id (text "purels-analytics-clarity")
              (clarity_snippet c.clarity_project_id)
              (clarity_snippet-NoMarkup c.clarity_project_id)))))

-- ===== src/Analytics/Injector/Snippets.antt =====
-- The inline scripts, as the text that the source concatenates.
use purels.Analytics.Config.{AnalyticsConfig}
use purels.Analytics.Script.{json_for_script}
use purels.Base.{List, Option, String, [], if◌then◌else◌, none, some, ◌++◌, ◌∷◌}
use purels.Js.Text.{Text, is_empty, text}

-- A script is fixed text and values that are written through `jsonForScript`.
pub data Piece : Type 0 where
  fixed : String → Piece
  embedded : Text → Piece

unfoldable pub piece : Piece → Text
unfolding json_for_script
piece (fixed s) = text s
piece (embedded v) = json_for_script v

unfoldable pub script : List Piece → Text
unfolding piece
script [] = []
script (p ∷ ps) = piece p ++ script ps

-- `gtagSnippet`.
abbrev pub gtag_snippet_pieces : Text → List Piece
gtag_snippet_pieces tag_id =
    fixed "window.dataLayer = window.dataLayer || [];"
    ∷ fixed "function gtag(){window.dataLayer.push(arguments);}"
    ∷ fixed "window.gtag = gtag;"
    ∷ fixed "gtag('js', new Date());"
    ∷ fixed "gtag('config', "
    ∷ embedded tag_id
    ∷ fixed ");"
    ∷ fixed "(function(){var s=document.createElement('script');s.async=true;"
    ∷ fixed "s.src='https://www.googletagmanager.com/gtag/js?id='+"
    ∷ embedded tag_id
    ∷ fixed ";"
    ∷ fixed "document.head.appendChild(s);})();"
    ∷ []

unfoldable pub gtag_snippet : Text → Text
unfolding script
gtag_snippet tag_id = script (gtag_snippet_pieces tag_id)

-- `gtmSnippet`.
abbrev pub gtm_snippet_pieces : Text → List Piece
gtm_snippet_pieces container_id =
    fixed "(function(w,d,s,l,i){w[l]=w[l]||[];w[l].push({'gtm.start':new Date().getTime(),e"
    ∷ fixed "vent:'gtm.js'});"
    ∷ fixed "var f=d.getElementsByTagName(s)[0],j=d.createElement(s),dl=l!=='dataLayer'?'&l='"
    ∷ fixed "+l:'';"
    ∷ fixed "j.async=true;j.src='https://www.googletagmanager.com/gtm.js?id='+i+dl;"
    ∷ fixed "f.parentNode.insertBefore(j,f);})(window,document,'script','dataLayer',"
    ∷ embedded container_id
    ∷ fixed ");"
    ∷ []

unfoldable pub gtm_snippet : Text → Text
unfolding script
gtm_snippet container_id = script (gtm_snippet_pieces container_id)

-- `matomoSnippet`.
abbrev pub matomo_snippet_pieces : Text → Text → List Piece
matomo_snippet_pieces base_url site_id =
    fixed "var _paq = window._paq = window._paq || [];"
    ∷ fixed "_paq.push(['setTrackerUrl', "
    ∷ embedded (base_url ++ text "/matomo.php")
    ∷ fixed "]);"
    ∷ fixed "_paq.push(['setSiteId', "
    ∷ embedded site_id
    ∷ fixed "]);"
    ∷ fixed "_paq.push(['trackPageView']);"
    ∷ fixed "_paq.push(['enableLinkTracking']);"
    ∷ fixed "(function(){var d=document,g=d.createElement('script'),s=d.getElementsByTagName("
    ∷ fixed "'script')[0];"
    ∷ fixed "g.async=true;g.src="
    ∷ embedded (base_url ++ text "/matomo.js")
    ∷ fixed ";s.parentNode.insertBefore(g,s);})();"
    ∷ []

unfoldable pub matomo_snippet : Text → Text → Text
unfolding script
matomo_snippet base_url site_id = script (matomo_snippet_pieces base_url site_id)

-- `claritySnippet`.
abbrev pub clarity_snippet_pieces : Text → List Piece
clarity_snippet_pieces project_id =
    fixed "(function(c,l,a,r,i,t,y){c[a]=c[a]||function(){(c[a].q=c[a].q||[]).push(argument"
    ∷ fixed "s)};"
    ∷ fixed "t=l.createElement(r);t.async=1;t.src='https://www.clarity.ms/tag/'+i;"
    ∷ fixed "y=l.getElementsByTagName(r)[0];y.parentNode.insertBefore(t,y);})"
    ∷ fixed "(window, document, 'clarity', 'script', "
    ∷ embedded project_id
    ∷ fixed ");"
    ∷ []

unfoldable pub clarity_snippet : Text → Text
unfolding script
clarity_snippet project_id = script (clarity_snippet_pieces project_id)

-- One rendered script element: its id and its content.
pub record ScriptElement : Type 0 where
  pub id : Text
  pub html : Text

abbrev pub render_if : Text → Text → Text → List ScriptElement
render_if configured id html =
    if is_empty configured then [] else record { id = id; html = html } ∷ []

abbrev pub ga4_script : AnalyticsConfig → List ScriptElement
ga4_script c =
    render_if c.ga4_measurement_id (text "purels-analytics-ga4") (gtag_snippet c.ga4_measurement_id)

abbrev pub gtm_script : AnalyticsConfig → List ScriptElement
gtm_script c =
    render_if c.gtm_container_id (text "purels-analytics-gtm") (gtm_snippet c.gtm_container_id)

abbrev pub google_tag_script : AnalyticsConfig → List ScriptElement
google_tag_script c =
    render_if c.google_tag_id (text "purels-analytics-google-tag") (gtag_snippet c.google_tag_id)

abbrev pub matomo_script : AnalyticsConfig → List ScriptElement
matomo_script c =
    render_if c.matomo_url (text "purels-analytics-matomo")
      (matomo_snippet c.matomo_url c.matomo_site_id)

abbrev pub clarity_script : AnalyticsConfig → List ScriptElement
clarity_script c =
    render_if c.clarity_project_id (text "purels-analytics-clarity")
      (clarity_snippet c.clarity_project_id)

-- `AnalyticsInjector`: the elements, in document order; a null configuration renders nothing.
unfoldable pub analytics_injector : Option AnalyticsConfig → List ScriptElement
unfolding gtag_snippet gtm_snippet matomo_snippet clarity_snippet
analytics_injector none = []
analytics_injector (some c) =
    ga4_script c ++ (gtm_script c ++ (google_tag_script c ++ (matomo_script c ++ clarity_script c)))

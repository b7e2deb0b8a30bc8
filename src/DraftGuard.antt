-- ===== src/DraftGuard.antt =====
-- web/src/components/settings/settings-draft-guard.tsx: the guard that keeps unsaved drafts.
pub mod Guarding
pub mod Leaving
use purels.Base.{
  Bool, List, Option, [], false, filter, if◌then◌else◌, length, ltb, none, not, some, true, ℕ, ◌&&◌,
  ◌++◌, ◌==◌, ◌||◌, ◌∷◌, ◌≡◌,
}
use purels.I18n.Translate.{form}
use purels.Js.Case.{CaseMapping}
use purels.Js.Text.{Text, includes, is_empty, same, text}

-- `dirtyForms`, `hasDirty`, `pendingHref`, and the calls of `router.push`.
pub record Guard : Type 0 where
  pub dirty_forms : List Text
  pub has_dirty : Bool
  pub pending_href : Option Text
  pub pushed : List Text

abbrev pub opened : Guard
opened = record { dirty_forms = []; has_dirty = false; pending_href = none; pushed = [] }

abbrev pub is_other : Text → Text → Bool
is_other id form = not (same form id)

-- `Set.prototype.add` and `delete`.
unfoldable pub update_forms : Text → Bool → List Text → List Text
unfolding includes
update_forms id true forms = if includes forms id then forms else forms ++ (id ∷ [])
update_forms id false forms = filter (is_other id) forms

unfoldable pub register_dirty : Text → Bool → Guard → Guard
unfolding update_forms
register_dirty id dirty g = record g {
  dirty_forms = update_forms id dirty g.dirty_forms;
  has_dirty = ltb 0 (length (update_forms id dirty g.dirty_forms));
}

-- What the parts of a `URL` read as.
pub record Url : Type 0 where
  pub protocol : Text
  pub origin : Text
  pub pathname : Text
  pub search : Text
  pub href : Text

-- The browser's `new URL(href, base)`: `none` where it throws. The `href` of a parsed URL is
-- absolute, and parses to the same URL against any base.
pub record UrlParser : Type 0 where
  pub parse : Text → Text → Option Url
  pub parse_href :
      (href base other : Text) (u : Url) → parse href base ≡ some u → parse u.href other ≡ some u

-- The link around the clicked element.
pub record Anchor : Type 0 where
  pub download : Bool
  pub target : Text
  pub href : Text

pub record Click : Type 0 where
  pub default_prevented : Bool
  pub button : ℕ
  pub has_modifier : Bool
  pub anchor : Option Anchor

abbrev pub is_plain_click : Click → Bool
is_plain_click k = not k.default_prevented && k.button == 0 && not k.has_modifier

module _ (case : CaseMapping) (urls : UrlParser) (location : Url) where
  abbrev pub opens_here : Anchor → Bool
  opens_here a =
      not a.download && (is_empty a.target || same (case.to_lower a.target) (text "_self"))

  abbrev pub is_local : Url → Bool
  is_local u =
      includes (text "http:" ∷ text "https:" ∷ []) u.protocol && same u.origin location.origin

  abbrev pub is_here : Url → Bool
  is_here u = same u.pathname location.pathname && same u.search location.search

  abbrev pub leaves_by : Option Url → Option Url
  leaves_by none = none
  leaves_by (some u) = if is_local u && not (is_here u) then some u else none

  abbrev pub leaving_anchor : Option Anchor → Option Url
  leaving_anchor none = none
  leaving_anchor (some a) =
      if opens_here a then leaves_by (urls.parse a.href location.href) else none

  -- The destination of a click that would leave the page by a link of the console itself.
  unfoldable pub leaving : Click → Option Url
  unfolding includes same
  leaving k = if is_plain_click k then leaving_anchor k.anchor else none

  abbrev pub keep_first : Option Text → Text → Option Text
  keep_first none href = some href
  keep_first (some first) href = some first

  -- The listener is attached while `hasDirty` is set, and reads `dirtyForms`.
  abbrev pub is_guarding : Guard → Bool
  is_guarding g = g.has_dirty && ltb 0 (length g.dirty_forms)

  abbrev pub hold : Option Url → Guard → Guard × Bool
  hold none g = (g, false)
  hold (some u) g = (record g { pending_href = keep_first g.pending_href u.href }, true)

  -- `followLink`; the flag says that the navigation was stopped.
  unfoldable pub follow_link : Click → Guard → Guard × Bool
  unfolding leaving
  follow_link k g = if is_guarding g then hold (leaving k) g else (g, false)

  -- `beforeUnload`: whether the browser is asked to prompt.
  abbrev pub before_unload : Guard → Bool
  before_unload g = is_guarding g

  abbrev pub keep_editing : Guard → Guard
  keep_editing g = record g { pending_href = none }

  abbrev pub push_pending : Option Text → Guard → Guard
  push_pending none g = g
  push_pending (some href) g =
      if is_empty href
      then g
      else record g { pending_href = none; pushed = g.pushed ++ (href ∷ []) }

  unfoldable pub discard_and_leave : Guard → Guard
  discard_and_leave g = push_pending g.pending_href g

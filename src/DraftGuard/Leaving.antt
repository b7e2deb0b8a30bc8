-- ===== src/DraftGuard/Leaving.antt =====
-- Where the guard lets the page go, and when it prompts.
use mathlib.Core.Path.{subst}
use purels.Base.{
  &&_true, All, All-append, Bool, Bool-cases, Option, [], arith, inl, inr, length, ltb, none, not,
  refl, some, sym, true, ◌&&◌, ◌∷◌, ◌≡◌, ◌⊎◌,
}
use purels.DraftGuard.{
  Anchor, Click, Guard, Url, UrlParser, before_unload, discard_and_leave, follow_link, hold,
  is_guarding, is_here, is_local, is_plain_click, keep_editing, keep_first, leaves_by, leaving,
  leaving_anchor, opened, opens_here, push_pending, register_dirty,
}
use purels.Js.Case.{CaseMapping}
use purels.Js.Text.{Text, includes, same, text}
use purels.Js.Text.Equality.{includes_iff, same_iff}

-- A text that the browser reads as an http or https URL of the console's own origin.
abbrev pub IsLocal : UrlParser → Url → Text → Type 0
IsLocal urls location href =
    (u : Url) × (urls.parse href location.href ≡ some u)
    × (u.origin ≡ location.origin)
    × ((u.protocol ≡ text "http:") ⊎ (u.protocol ≡ text "https:"))

abbrev pub IsLocalOption : UrlParser → Url → Option Text → Type 0
IsLocalOption urls location none = Unit
IsLocalOption urls location (some href) = IsLocal urls location href

module _ (case : CaseMapping) (urls : UrlParser) (location : Url) where
  -- The forms, the clicks and the two buttons of the dialog, in any order.
  pub data Step : Guard → Guard → Type 0 where
    registers : (g : Guard) (id : Text) (dirty : Bool) → Step g (register_dirty id dirty g)
    clicks : (g : Guard) (k : Click) → Step g (follow_link case urls location k g).0
    keeps : (g : Guard) → Step g (keep_editing case urls location g)
    discards : (g : Guard) → Step g (discard_and_leave case urls location g)

  pub data Reach : Guard → Type 0 where
    here : Reach opened
    next : {g h : Guard} → Reach g → Step g h → Reach h

  record IsSound (g : Guard) : Type 0 where
    counted : g.has_dirty ≡ ltb 0 (length g.dirty_forms)
    pending : IsLocalOption urls location g.pending_href
    gone : All (IsLocal urls location) g.pushed

  -- What the browser parsed, with what its own text parses to.
  abbrev IsParsed : Url → Type 0
  IsParsed u = urls.parse u.href location.href ≡ some u

  leaves_by-IsLocal :
      (o : Option Url) (u : Url)
      → ((d : Url) → o ≡ some d → IsParsed d)
      → leaves_by case urls location o ≡ some u
      → IsLocal urls location u.href
  unfolding includes
  leaves_by-IsLocal none u parsed h = cc
  leaves_by-IsLocal (some d) u parsed h =
      elim (Bool-cases (is_local case urls location d && not (is_here case urls location d))) [
        | inr stays ↦ cc (rw stays at h)
        | inl leaves ↦
            let same_url : d ≡ u = cc (rw leaves at h) in
            let local = ((&&_true (is_local case urls location d) _).0 leaves).0 in
            subst (λ (v : Url). IsLocal urls location v.href) same_url
              (
                d,
                parsed d refl,
                (same_iff d.origin location.origin).0 (origin d local),
                protocol d local,
              )
      ]
    where
      origin :
          (d : Url) → is_local case urls location d ≡ true → same d.origin location.origin ≡ true
      origin d h = ground arith

      protocol :
          (d : Url)
          → is_local case urls location d ≡ true
          → (d.protocol ≡ text "http:") ⊎ (d.protocol ≡ text "https:")
      protocol d h =
          elim ((includes_iff (text "http:" ∷ text "https:" ∷ []) d.protocol).0
            ((&&_true (includes (text "http:" ∷ text "https:" ∷ []) d.protocol) _).0 h).0) [
              | inl e ↦ inl (sym e)
              | inr m ↦ elim m [ inl e ↦ inr (sym e) | inr none_left ↦ absurd none_left ]
            ]

  leaving-IsLocal :
      (k : Click) (u : Url) → leaving case urls location k ≡ some u → IsLocal urls location u.href
  unfolding leaving
  leaving-IsLocal k u h = elim (Bool-cases (is_plain_click k)) [
    | inr other ↦ cc (rw other at h)
    | inl plain_click ↦ by_anchor k.anchor (rw plain_click at h)
  ]
    where
      by_anchor :
          (a : Option Anchor)
          → leaving_anchor case urls location a ≡ some u
          → IsLocal urls location u.href
      by_anchor none e = cc
      by_anchor (some a) e = elim (Bool-cases (opens_here case urls location a)) [
        | inr away ↦ cc (rw away at e)
        | inl stays_here ↦
            leaves_by-IsLocal (urls.parse a.href location.href) u
              (λ d f. urls.parse_href a.href location.href location.href d f) (rw stays_here at e)
      ]

  keep_first-IsLocal :
      (o : Option Text) (href : Text)
      → IsLocalOption urls location o
      → IsLocal urls location href
      → IsLocalOption urls location (keep_first case urls location o href)
  keep_first-IsLocal none href h k = k
  keep_first-IsLocal (some first) href h k = h

  hold-IsSound :
      (o : Option Url) (g : Guard)
      → ((u : Url) → o ≡ some u → IsLocal urls location u.href)
      → IsSound g
      → IsSound (hold case urls location o g).0
  hold-IsSound none g f v = v
  hold-IsSound (some u) g f v = record {
    counted = v.counted;
    pending = keep_first-IsLocal g.pending_href u.href v.pending (f u refl);
    gone = v.gone;
  }

  click-IsSound :
      (g : Guard) (k : Click) → IsSound g → IsSound (follow_link case urls location k g).0
  unfolding follow_link
  click-IsSound g k v = elim (Bool-cases (is_guarding case urls location g)) [
    | inl on ↦ rw on (hold-IsSound (leaving case urls location k) g (leaving-IsLocal k) v)
    | inr off ↦ rw off v
  ]

  discard-IsSound : (g : Guard) → IsSound g → IsSound (discard_and_leave case urls location g)
  unfolding discard_and_leave
  discard-IsSound g v = by_href g.pending_href v.pending
    where
      by_href :
          (o : Option Text)
          → IsLocalOption urls location o
          → IsSound (push_pending case urls location o g)
      by_href none h = v
      by_href (some []) h = v
      by_href (some (c ∷ s)) h = record {
        counted = v.counted;
        pending = tt;
        gone = All-append (IsLocal urls location) g.pushed ((c ∷ s) ∷ []) v.gone (h, tt);
      }

  Step-IsSound : {g h : Guard} → Step g h → IsSound g → IsSound h
  unfolding register_dirty
  Step-IsSound (registers g id dirty) v = record {
    counted = refl;
    pending = v.pending;
    gone = v.gone;
  }
  Step-IsSound (clicks g k) v = click-IsSound g k v
  Step-IsSound (keeps g) v = record { counted = v.counted; pending = tt; gone = v.gone }
  Step-IsSound (discards g) v = discard-IsSound g v

  Reach-IsSound : {g : Guard} → Reach g → IsSound g
  Reach-IsSound here = record { counted = refl; pending = tt; gone = tt }
  Reach-IsSound (next r st) = Step-IsSound st (Reach-IsSound r)

  both_of : (a b : Bool) → a ≡ b → a && b ≡ b
  both_of a b h = ground arith

  -- After any sequence of registrations, clicks, and presses of the dialog's two buttons,
  -- closing the page is prompted exactly if some form is dirty, and every URL that was navigated
  -- to or is held for confirmation is an http or https URL of the console's own origin.
  pub Reach-before_unload :
      {g : Guard}
      → Reach g
      → (before_unload case urls location g ≡ ltb 0 (length g.dirty_forms))
        × All (IsLocal urls location) g.pushed
        × IsLocalOption urls location g.pending_href
  Reach-before_unload {g} r =
      let v = Reach-IsSound r in
      (both_of g.has_dirty (ltb 0 (length g.dirty_forms)) v.counted, v.gone, v.pending)

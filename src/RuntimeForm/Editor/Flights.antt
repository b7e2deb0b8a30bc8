-- ===== src/RuntimeForm/Editor/Flights.antt =====
-- A save in flight, and what becomes of the draft meanwhile.
use mathlib.Core.Path.{subst}
use purels.Base.{
  Bool, Option, [], ap, false, if◌then◌else◌, none, refl, some, sym, true, ◌∙◌, ◌∷◌, ◌≡◌, ◌≢◌,
}
use purels.Js.Number.{Numbers}
use purels.Js.Text.{Text}
use purels.RuntimeForm.{Changes, Draft, Raw, RuntimeGroup, changes, invalid, runtime_changes}
use purels.RuntimeForm.Editor.{
  Answer, Form, Patch, Saved, answered, discard, edit, finish_load, finish_save, mounted_form,
  refused, save, save_from, send_changes, start_load,
}

module _ (n : Numbers) (group : RuntimeGroup) where
  -- The form with the request that it waits for.
  pub record Session : Type 0 where
    pub form : Form n group
    pub flight : Option (Patch n group)

  abbrev pub begun : Session
  begun = record { form = mounted_form n group; flight = none }

  abbrev pub with_form : Session → Form n group → Session
  with_form s f = record s { form = f }

  -- The controls are disabled while a save is in flight, and shown when the settings are loaded.
  pub record IsIdle (f : Form n group) (s : Saved n group) : Type 0 where
    pub loaded : f.saved ≡ some s
    pub free : f.busy ≡ false

  pub data Step : Session → Session → Type 0 where
    -- The retry of a failed load, and the reload after a conflict.
    retries : (s : Session) → s.form.saved ≡ none → Step s (with_form s (start_load n group s.form))
    reloads :
        (s : Session) (k : Saved n group)
        → IsIdle s.form k
        → s.form.conflict ≡ true
        → Step s (with_form s (start_load n group s.form))
    loads :
        (s : Session) (a : Answer n group)
        → s.form.loading ≡ true
        → Step s (with_form s (finish_load n group a s.form))
    types_in :
        (s : Session) (k : Saved n group) (key : Text) (raw : Raw)
        → IsIdle s.form k
        → Step s (with_form s (edit n group key raw s.form))
    discards :
        (s : Session) (k : Saved n group)
        → IsIdle s.form k
        → Step s (with_form s (discard n group k s.form))
    saves :
        (s : Session) (k : Saved n group)
        → IsIdle s.form k
        → Step s (record { form = (save n group s.form).0; flight = (save n group s.form).1 })
    answers :
        (s : Session) (p : Patch n group) (a : Answer n group)
        → s.flight ≡ some p
        → Step s (record { form = finish_save n group a s.form; flight = none })

  pub data Reach : Session → Type 0 where
    here : Reach begun
    next : {s t : Session} → Reach s → Step s t → Reach t

  -- A patch in flight is made from the revision that is shown and holds what the draft changes.
  abbrev pub IsPatchOf : Option (Saved n group) → Draft → Patch n group → Type 0
  IsPatchOf none draft p = ⊥
  IsPatchOf (some k) draft p =
      (p.base ≡ k.revision) × (runtime_changes n k.settings draft group ≡ changes p.edits)

  abbrev pub IsFlightOf : Form n group → Option (Patch n group) → Type 0
  IsFlightOf f none = f.busy ≡ false
  IsFlightOf f (some p) = (f.busy ≡ true) × IsPatchOf f.saved f.draft p

  no_flight :
      (f : Form n group) (o : Option (Patch n group)) → IsFlightOf f o → f.busy ≡ false → o ≡ none
  no_flight f none h e = refl
  no_flight f (some p) h e = cc (h.0, e)

  -- A flight needs loaded settings.
  unloaded :
      (f : Form n group) (o : Option (Patch n group))
      → IsFlightOf f o
      → f.saved ≡ none
      → f.busy ≡ false
  unloaded f none h e = h
  unloaded f (some p) h e = absurd (subst (λ k. IsPatchOf k f.draft p) e h.1)

  -- Without a flight, every form that is not busy is in order.
  free_flight :
      (f g : Form n group) (o : Option (Patch n group))
      → IsFlightOf f o
      → f.busy ≡ false
      → g.busy ≡ false
      → IsFlightOf g o
  free_flight f g o h e e' = rw (no_flight f o h e) e'

  sent-IsFlightOf :
      (k : Saved n group) (c : Changes n) (f : Form n group)
      → f.saved ≡ some k
      → f.busy ≡ false
      → runtime_changes n k.settings f.draft group ≡ c
      → IsFlightOf (send_changes n group k c f).0 (send_changes n group k c f).1
  sent-IsFlightOf k (invalid key) f e b h = b
  sent-IsFlightOf k (changes []) f e b h = b
  sent-IsFlightOf k (changes (c ∷ cs)) f e b h = (
    refl,
    subst (λ o. IsPatchOf o f.draft (record { base = k.revision; edits = c ∷ cs })) (sym e)
        (refl, h),
  )

  abbrev sending : Saved n group → Form n group → Form n group × Option (Patch n group)
  sending k f =
      send_changes n group k (runtime_changes n k.settings f.draft group)
        (record f { problem = none; notice = false })

  save_lem : (f : Form n group) (k : Saved n group) → IsIdle f k → save n group f ≡ sending k f
  unfolding save
  save_lem f k i =
      subst (λ o. save_from n group o f ≡ sending k f) (sym i.loaded)
        (ap (λ (b : Bool). if b then (f, none) else sending k f) i.free)

  saved-IsFlightOf :
      (f : Form n group) (k : Saved n group)
      → IsIdle f k
      → IsFlightOf (save n group f).0 (save n group f).1
  saved-IsFlightOf f k i =
      subst (λ r. IsFlightOf r.0 r.1) (sym (save_lem f k i))
        (sent-IsFlightOf k (runtime_changes n k.settings f.draft group)
          (record f { problem = none; notice = false }) i.loaded i.free refl)

  -- While settings are loaded, none are shown.
  abbrev IsBlankWhileLoading : Form n group → Type 0
  IsBlankWhileLoading f = f.loading ≡ true → f.saved ≡ none

  record IsSound (s : Session) : Type 0 where
    flying : IsFlightOf s.form s.flight
    blank : IsBlankWhileLoading s.form

  send_keeps :
      (k : Saved n group) (c : Changes n) (f : Form n group)
      → ((send_changes n group k c f).0.loading ≡ f.loading)
        × ((send_changes n group k c f).0.saved ≡ f.saved)
  send_keeps k (invalid key) f = (refl, refl)
  send_keeps k (changes []) f = (refl, refl)
  send_keeps k (changes (c ∷ cs)) f = (refl, refl)

  save_keeps :
      (f : Form n group) (k : Saved n group)
      → IsIdle f k
      → ((save n group f).0.loading ≡ f.loading) × ((save n group f).0.saved ≡ f.saved)
  save_keeps f k i =
      subst (λ r. (r.0.loading ≡ f.loading) × (r.0.saved ≡ f.saved)) (sym (save_lem f k i))
        (send_keeps k (runtime_changes n k.settings f.draft group)
          (record f { problem = none; notice = false }))

  flying_settings :
      (f : Form n group) (o : Option (Patch n group)) (p : Patch n group)
      → IsFlightOf f o
      → o ≡ some p
      → f.saved ≢ none
  flying_settings f none p h e = cc
  flying_settings f (some q) p h e =
      λ (blank : f.saved ≡ none). subst (λ k. IsPatchOf k f.draft q) blank h.1

  loading_free : (s : Session) → IsSound s → s.form.loading ≡ true → s.form.busy ≡ false
  loading_free s v l = unloaded s.form s.flight v.flying (v.blank l)

  Step-IsSound : {s t : Session} → Step s t → IsSound s → IsSound t
  Step-IsSound (retries s e) v = record {
    flying =
        free_flight s.form (start_load n group s.form) s.flight v.flying
          (unloaded s.form s.flight v.flying e) (unloaded s.form s.flight v.flying e);
    blank = λ _. refl;
  }
  Step-IsSound (reloads s k i c) v = record {
    flying = free_flight s.form (start_load n group s.form) s.flight v.flying i.free i.free;
    blank = λ _. refl;
  }
  Step-IsSound (loads s (answered k) l) v =
      let b = loading_free s v l in
      record {
        flying = free_flight s.form (finish_load n group (answered k) s.form) s.flight v.flying b b;
        blank = λ e. cc (e);
      }
  Step-IsSound (loads s (refused x) l) v =
      let b = loading_free s v l in
      record {
        flying = free_flight s.form (finish_load n group (refused x) s.form) s.flight v.flying b b;
        blank = λ e. cc (e);
      }
  Step-IsSound (types_in s k key raw i) v = record {
    flying = free_flight s.form (edit n group key raw s.form) s.flight v.flying i.free i.free;
    blank = v.blank;
  }
  Step-IsSound (discards s k i) v = record {
    flying = free_flight s.form (discard n group k s.form) s.flight v.flying i.free i.free;
    blank = v.blank;
  }
  Step-IsSound (saves s k i) v =
      let (a, b) = save_keeps s.form k i in
      record { flying = saved-IsFlightOf s.form k i; blank = λ e. b ∙ v.blank (sym a ∙ e) }
  Step-IsSound (answers s p (answered k) e) v = record {
    flying = refl;
    blank = λ l. absurd (flying_settings s.form s.flight p v.flying e (v.blank l));
  }
  Step-IsSound (answers s p (refused x) e) v = record { flying = refl; blank = v.blank }

  Reach-IsSound : {s : Session} → Reach s → IsSound s
  Reach-IsSound here = record { flying = refl; blank = λ _. refl }
  Reach-IsSound (next r st) = Step-IsSound st (Reach-IsSound r)

  -- After any sequence of loads, edits, discards, saves and answers, each made while its control
  -- is enabled, the form is busy exactly while a request is in flight, and that request has the
  -- revision that is shown and holds exactly the changes of the draft that is shown: what an
  -- answer replaces is what was sent.
  pub Reach-IsFlightOf : {s : Session} → Reach s → IsFlightOf s.form s.flight
  Reach-IsFlightOf r = (Reach-IsSound r).flying

-- ===== src/I18n/Negotiate/Choice.antt =====
-- Qualities, and the order in which locales are considered.
use purels.Base.{
  All, Bool, Bool-cases, List, Option, [], ap, false, if◌then◌else◌, inl, inr, none, refl, some,
  sym, true, ◌++◌, ◌||◌, ◌∙◌, ◌∷◌, ◌≡◌, ◌⊎◌,
}
use purels.I18n.Locale.{Locale}
use purels.I18n.Negotiate.{Best, Tag, consider, consider_parts, consider_tag, match_tag, parse_tag}
use purels.Js.Case.{CaseMapping}
use purels.Js.Number.{Numbers}
use purels.Js.Text.{Text, is_empty}

module _ (case : CaseMapping) (n : Numbers) where
  open n use {
    Num, number, is_finite, num_leb, minus_one, zero, one, finite_total, leb_trans, one_finite,
    zero_finite, minus_one_finite, minus_one-le-zero,
  }

  abbrev pub Candidate : Type 0
  Candidate = Locale × Num

  -- What one entry of the header offers: a shipped locale with a quality above zero.
  abbrev pub offer : Num → Option Locale → List Candidate
  offer q none = []
  offer q (some l) = (l, q) ∷ []

  unfoldable pub candidate : Tag case n → List Candidate
  candidate t =
      if is_empty t.tag || num_leb t.quality zero
      then []
      else offer t.quality (match_tag case n t.tag)

  unfoldable pub candidates : List Text → List Candidate
  candidates [] = []
  candidates (part ∷ parts) = candidate (parse_tag case n part) ++ candidates parts

  abbrev pub better : Best case n → Candidate → Best case n
  better b c = if num_leb c.1 b.quality then b else record { locale = c.0; quality = c.1 }

  pub choose : Best case n → List Candidate → Best case n
  choose b [] = b
  choose b (c ∷ cs) = choose (better b c) cs

  choose-candidate :
      (b : Best case n) (t : Tag case n) (cs : List Candidate)
      → choose b (candidate t ++ cs) ≡ choose (consider_tag case n b t) cs
  unfolding choose candidate consider_tag
  choose-candidate b t cs = elim (Bool-cases (is_empty t.tag || num_leb t.quality zero)) [
    | inl skip ↦ rw skip
    | inr open_tag ↦ rw open_tag (offered (match_tag case n t.tag))
  ]
    where
      offered :
          (o : Option Locale)
          → choose b (offer t.quality o ++ cs) ≡ choose (consider case n b t.quality o) cs
      offered none = refl
      offered (some l) = refl

  pub choose-candidates :
      (b : Best case n) (parts : List Text)
      → consider_parts case n b parts ≡ choose b (candidates parts)
  unfolding consider_parts candidates
  choose-candidates b [] = unfold choose in refl
  choose-candidates b (part ∷ parts) =
      choose-candidates (consider_tag case n b (parse_tag case n part)) parts
      ∙ sym (choose-candidate b (parse_tag case n part) (candidates parts))

  -- The quality of every candidate is a finite number above zero.
  abbrev pub IsOffer : Candidate → Type 0
  IsOffer c = (is_finite c.1 ≡ true) × (num_leb c.1 zero ≡ false)

  abbrev pub IsBelow : Num → Candidate → Type 0
  IsBelow q c = num_leb c.1 q ≡ true

  -- The first of the best: none before is as good, and none after is better.
  pub record IsFirstBest (cs : List Candidate) (l : Locale) (q : Num) : Type 0 where
    pub earlier : List Candidate
    pub later : List Candidate
    pub splits : cs ≡ earlier ++ ((l, q) ∷ later)
    pub earlier_lower : All (λ c. num_leb q c.1 ≡ false) earlier
    pub later_not_above : All (λ c. num_leb c.1 q ≡ true) later

  abbrev pub Kept : Best case n → List Candidate → Type 0
  Kept b cs = (choose b cs ≡ b) × All (IsBelow b.quality) cs

  pub record Replaced (b : Best case n) (cs : List Candidate) : Type 0 where
    pub locale : Locale
    pub quality : Num
    pub chosen : choose b cs ≡ record { locale = locale; quality = quality }
    pub higher : num_leb quality b.quality ≡ false
    pub first : IsFirstBest cs locale quality

  not_true_of : (b : Bool) → (b ≡ true → ⊥) → b ≡ false
  not_true_of true h = absurd (h refl)
  not_true_of false h = refl

  better_below : (b : Best case n) (c : Candidate) → num_leb c.1 b.quality ≡ true → better b c ≡ b
  better_below b c h = rw h

  better_above :
      (b : Best case n) (c : Candidate)
      → num_leb c.1 b.quality ≡ false
      → better b c ≡ record { locale = c.0; quality = c.1 }
  better_above b c h = rw h

  choose_cons :
      (b : Best case n) (c : Candidate) (cs : List Candidate)
      → choose b (c ∷ cs) ≡ choose (better b c) cs
  unfolding choose
  choose_cons b c cs = refl

  -- Behind a candidate that is not better, the choice is the same.
  below_Replaced :
      (b : Best case n) (c : Candidate) (cs : List Candidate)
      → num_leb c.1 b.quality ≡ true
      → Replaced b cs
      → Replaced b (c ∷ cs)
  below_Replaced b c cs below r = record {
    locale = r.locale;
    quality = r.quality;
    chosen = choose_cons b c cs ∙ ap (λ x. choose x cs) (better_below b c below) ∙ r.chosen;
    higher = r.higher;
    first = record {
      earlier = c ∷ r.first.earlier;
      later = r.first.later;
      splits = ap (◌∷◌ c) r.first.splits;
      earlier_lower = (
        not_true_of _
            (λ e. let no = leb_trans r.quality c.1 b.quality e below in cc (r.higher, no)),
        r.first.earlier_lower,
      );
      later_not_above = r.first.later_not_above;
    };
  }

  module _ (b : Best case n) (c : Candidate) (cs : List Candidate)
      (above : num_leb c.1 b.quality ≡ false) where
    abbrev next : Best case n
    next = record { locale = c.0; quality = c.1 }

    above_chosen : {x : Best case n} → choose next cs ≡ x → choose b (c ∷ cs) ≡ x
    above_chosen h = choose_cons b c cs ∙ ap (λ x. choose x cs) (better_above b c above) ∙ h

    above_Kept : Kept next cs → Replaced b (c ∷ cs)
    above_Kept (same_best, lower) = record {
      locale = c.0;
      quality = c.1;
      chosen = above_chosen same_best;
      higher = above;
      first = record {
        earlier = [];
        later = cs;
        splits = refl;
        earlier_lower = tt;
        later_not_above = lower;
      };
    }

    above_Replaced :
        is_finite b.quality ≡ true → is_finite c.1 ≡ true → Replaced next cs → Replaced b (c ∷ cs)
    above_Replaced b_fin c_fin r = record {
      locale = r.locale;
      quality = r.quality;
      chosen = above_chosen r.chosen;
      higher = not_true_of _ (λ e.
          let no =
            leb_trans r.quality b.quality c.1 e (finite_total c.1 b.quality c_fin b_fin above) in
          cc (r.higher, no));
      first = record {
        earlier = c ∷ r.first.earlier;
        later = r.first.later;
        splits = ap (◌∷◌ c) r.first.splits;
        earlier_lower = (r.higher, r.first.earlier_lower);
        later_not_above = r.first.later_not_above;
      };
    }

  pub choose_lem :
      (cs : List Candidate) (b : Best case n)
      → is_finite b.quality ≡ true
      → All IsOffer cs
      → Kept b cs ⊎ Replaced b cs
  choose_lem [] b fin h = inl (unfold choose in refl, tt)
  choose_lem (c ∷ cs) b fin ((c_fin, c_pos), h) = elim (Bool-cases (num_leb c.1 b.quality)) [
    | inl below ↦ elim (choose_lem cs b fin h) [
      | inl (kept, lower) ↦ inl (
        choose_cons b c cs ∙ ap (λ x. choose x cs) (better_below b c below) ∙ kept,
        (below, lower),
      )
      | inr r ↦ inr (below_Replaced b c cs below r)
    ]
    | inr above ↦ elim (choose_lem cs (next b c cs above) c_fin h) [
      | inl kept ↦ inr (above_Kept b c cs above kept)
      | inr r ↦ inr (above_Replaced b c cs above fin c_fin r)
    ]
  ]

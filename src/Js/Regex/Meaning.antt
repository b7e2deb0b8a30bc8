-- ===== src/Js/Regex/Meaning.antt =====
-- The language of an expression, and that the test decides it.

use purels.Base.{
  All, All-append, Bool, Bool-cases, [], ap, arith, inl, inr, refl, suc, sym, true, zero, ℕ, ◌++◌,
  ◌↔◌, ◌∙◌, ◌∷◌, ◌≡◌, ◌⊎◌,
}
use purels.Js.Regex.{Regex, alt, cls, deriv, eps, never, nullable, rep, seq, star, test, up_to}
use purels.Js.Text.{Text}

pub data Accepts : Regex → Text → Type 0 where
  of_eps : {s : Text} → s ≡ [] → Accepts eps s
  of_cls : {p : ℕ → Bool} {s : Text} (c : ℕ) → p c ≡ true → s ≡ c ∷ [] → Accepts (cls p) s
  of_seq :
      {a b : Regex} {u : Text} (s t : Text)
      → Accepts a s
      → Accepts b t
      → u ≡ s ++ t
      → Accepts (seq a b) u
  of_left : {a b : Regex} {s : Text} → Accepts a s → Accepts (alt a b) s
  of_right : {a b : Regex} {s : Text} → Accepts b s → Accepts (alt a b) s
  of_done : {a : Regex} {s : Text} → s ≡ [] → Accepts (star a) s
  of_more :
      {a : Regex} {u : Text} (c : ℕ) (s t : Text)
      → Accepts a (c ∷ s)
      → Accepts (star a) t
      → u ≡ c ∷ (s ++ t)
      → Accepts (star a) u

nullable_sound : (r : Regex) → nullable r ≡ true → Accepts r []
unfolding nullable
nullable_sound never h = cc
nullable_sound eps h = of_eps refl
nullable_sound (cls p) h = cc
nullable_sound (seq a b) h =
    of_seq [] [] (nullable_sound a (ground arith)) (nullable_sound b (ground arith)) refl
nullable_sound (alt a b) h = elim (Bool-cases (nullable a)) [
  | inl e ↦ of_left (nullable_sound a e)
  | inr e ↦ of_right (nullable_sound b (ground arith))
]
nullable_sound (star a) h = of_done refl

not-Accepts-never : {s : Text} → Accepts never s → ⊥
not-Accepts-never h = elim h [ ]

Accepts-alt : {a b : Regex} {s : Text} → Accepts (alt a b) s → Accepts a s ⊎ Accepts b s
Accepts-alt (of_left h) = inl h
Accepts-alt (of_right h) = inr h

Accepts-eps : {s : Text} → Accepts eps s → s ≡ []
Accepts-eps (of_eps e) = e

-- Splitting a text whose first part is known to begin with the unit.
seq_cons :
    {a a' b : Regex} (c : ℕ) {s : Text}
    → ((x : Text) → Accepts a' x → Accepts a (c ∷ x))
    → Accepts (seq a' b) s
    → Accepts (seq a b) (c ∷ s)
seq_cons c f (of_seq x y h k e) = of_seq (c ∷ x) y (f x h) k (ap (◌∷◌ c) e)

star_cons :
    {a a' : Regex} (c : ℕ) {s : Text}
    → ((x : Text) → Accepts a' x → Accepts a (c ∷ x))
    → Accepts (seq a' (star a)) s
    → Accepts (star a) (c ∷ s)
star_cons c f (of_seq x y h k e) = of_more c x y (f x h) k (ap (◌∷◌ c) e)

deriv_sound : (r : Regex) (c : ℕ) (s : Text) → Accepts (deriv c r) s → Accepts r (c ∷ s)
unfolding deriv
deriv_sound never c s h = absurd (not-Accepts-never h)
deriv_sound eps c s h = absurd (not-Accepts-never h)
deriv_sound (cls p) c s h = elim (Bool-cases (p c)) [
  | inl e ↦ of_cls c e (ap (◌∷◌ c) (Accepts-eps (rw e at h)))
  | inr e ↦ absurd (not-Accepts-never (rw e at h))
]
deriv_sound (seq a b) c s h = elim (Bool-cases (nullable a)) [
  | inl e ↦ elim (Accepts-alt (rw e at h)) [
    | inl k ↦ seq_cons c (deriv_sound a c) k
    | inr k ↦ of_seq [] (c ∷ s) (nullable_sound a e) (deriv_sound b c s k) refl
  ]
  | inr e ↦ seq_cons c (deriv_sound a c) (rw e at h)
]
deriv_sound (alt a b) c s h = elim (Accepts-alt h) [
  | inl k ↦ of_left (deriv_sound a c s k)
  | inr k ↦ of_right (deriv_sound b c s k)
]
deriv_sound (star a) c s h = star_cons c (deriv_sound a c) h

-- What the test accepts is in the language.
pub test_sound : (s : Text) (r : Regex) → test r s ≡ true → Accepts r s
unfolding test
test_sound [] r h = nullable_sound r h
test_sound (c ∷ s) r h = deriv_sound r c s (test_sound s (deriv c r) h)

append_nil_parts : (x y : Text) → x ++ y ≡ [] → (x ≡ []) × (y ≡ [])
append_nil_parts [] y e = (refl, e)
append_nil_parts (c ∷ x) y e = cc

nullable_complete : (r : Regex) {s : Text} → Accepts r s → s ≡ [] → nullable r ≡ true
unfolding nullable
nullable_complete r (of_eps e) k = refl
nullable_complete r (of_cls c h e) k = cc
nullable_complete r (of_seq {a} {b} x y h l e) k =
    let (ex, ey) = append_nil_parts x y (sym e ∙ k) in
    rw (nullable_complete a h ex) (nullable_complete b l ey)
nullable_complete r (of_left {a} h) k = rw (nullable_complete a h k)
nullable_complete r (of_right {b} h) k = ground (arith, nullable_complete b h k)
nullable_complete r (of_done e) k = refl
nullable_complete r (of_more c x y h l e) k = refl

deriv_seq_left :
    (a b : Regex) (c : ℕ) (s : Text) → Accepts (seq (deriv c a) b) s → Accepts (deriv c (seq a b)) s
unfolding deriv
deriv_seq_left a b c s h = elim (Bool-cases (nullable a)) [
  | inl e ↦ rw e (of_left h)
  | inr e ↦ rw e h
]

-- A nonempty text splits in its first part, or the first part is empty.
append_cons_parts :
    (x y s : Text) (c : ℕ)
    → x ++ y ≡ c ∷ s
    → ((x ≡ []) × (y ≡ c ∷ s)) ⊎ ((x' : Text) × (x ≡ c ∷ x') × (s ≡ x' ++ y))
append_cons_parts [] y s c e = inl (refl, e)
append_cons_parts (d ∷ x) y s c e = inr (x, ground arith, ground arith)

deriv_complete :
    (r : Regex) {u : Text} (c : ℕ) (s : Text) → Accepts r u → u ≡ c ∷ s → Accepts (deriv c r) s
unfolding deriv
deriv_complete r c s (of_eps e) k = cc
deriv_complete r c s (of_cls {p} d h e) k =
    rw (let same : d ≡ c = ground arith in ap p (sym same) ∙ h) (of_eps (ground arith))
deriv_complete r c s (of_left {a} h) k = of_left (deriv_complete a c s h k)
deriv_complete r c s (of_right {b} h) k = of_right (deriv_complete b c s h k)
deriv_complete r c s (of_done e) k = cc
deriv_complete r c s (of_more {a} d x y h l e) k =
    of_seq x y (deriv_complete a c x h (ground arith)) l (ground arith)
deriv_complete r c s (of_seq {a} {b} x y h l e) k = elim (append_cons_parts x y s c (sym e ∙ k)) [
  | inl (ex, ey) ↦ rw (nullable_complete a h ex) (of_right (deriv_complete b c s l ey))
  | inr (x', ex, es) ↦ deriv_seq_left a b c s (of_seq x' y (deriv_complete a c x' h ex) l es)
]

-- Everything in the language passes the test.
pub test_complete : (s : Text) (r : Regex) → Accepts r s → test r s ≡ true
unfolding test
test_complete [] r h = nullable_complete r h refl
test_complete (c ∷ s) r h = test_complete s (deriv c r) (deriv_complete r c s h refl)

pub test_iff : (r : Regex) (s : Text) → (test r s ≡ true) ↔ Accepts r s
test_iff r s = (test_sound s r, test_complete s r)

module _ (P : ℕ → Type 0) where
  -- Every class of the expression holds only units with the property.
  abbrev pub IsCovered : Regex → Type 0
  IsCovered never = Unit
  IsCovered eps = Unit
  IsCovered (cls p) = (c : ℕ) → p c ≡ true → P c
  IsCovered (seq a b) = IsCovered a × IsCovered b
  IsCovered (alt a b) = IsCovered a × IsCovered b
  IsCovered (star a) = IsCovered a

  pub Accepts-All : {r : Regex} {s : Text} → Accepts r s → IsCovered r → All P s
  Accepts-All (of_eps e) k = rw e tt
  Accepts-All (of_cls c h e) k = rw e (k c h, tt)
  Accepts-All (of_seq x y h l e) (k, m) =
      rw e (All-append P x y (Accepts-All h k) (Accepts-All l m))
  Accepts-All (of_left h) (k, m) = Accepts-All h k
  Accepts-All (of_right h) (k, m) = Accepts-All h m
  Accepts-All (of_done e) k = rw e tt
  Accepts-All (of_more c x y h l e) k =
      rw e (All-append P (c ∷ x) y (Accepts-All h k) (Accepts-All l k))

  pub test-All : (r : Regex) (s : Text) → test r s ≡ true → IsCovered r → All P s
  test-All r s h k = Accepts-All (test_sound s r h) k

  pub IsCovered-up_to : (n : ℕ) (r : Regex) → IsCovered r → IsCovered (up_to n r)
  IsCovered-up_to zero r h = tt
  IsCovered-up_to (suc n) r h = (tt, (h, IsCovered-up_to n r h))

  pub IsCovered-rep : (n extra : ℕ) (r : Regex) → IsCovered r → IsCovered (rep n extra r)
  IsCovered-rep zero extra r h = IsCovered-up_to extra r h
  IsCovered-rep (suc n) extra r h = (h, IsCovered-rep n extra r h)

-- ===== src/Js/Uri/Component.antt =====
-- The characters of an encoded URI component.
use purels.Base.{
  All, All-append, Bool, Bool-cases, List, Option-cases, [], arith, false, inl, inr, refl, some,
  true, within, ℕ, ◌%◌, ◌++◌, ◌/◌, ◌<◌, ◌==◌, ◌||◌, ◌∷◌, ◌≡◌,
}
use purels.Js.Text.{Text}
use purels.Js.Text.Splitting.{HasNo}
use purels.Js.Uri.{
  encode_scalar, encode_scalars, encode_uri_component, is_unreserved, percent_bytes, scalars,
  upper_hex,
}

unfoldable pub is_component_unit : ℕ → Bool
unfolding is_unreserved
is_component_unit c = is_unreserved c || c == b'%'

-- What may stand in one segment of a path.
abbrev pub IsComponent : Text → Type 0
IsComponent s = All (λ c. is_component_unit c ≡ true) s

hex_unit : (d : ℕ) → d < 16 → is_component_unit (upper_hex d) ≡ true
unfolding is_component_unit is_unreserved
hex_unit d h = ground arith

percent_unit : is_component_unit b'%' ≡ true
unfolding is_component_unit
percent_unit = refl

percent_bytes-IsComponent : (bs : List ℕ) → IsComponent (percent_bytes bs)
unfolding percent_bytes
percent_bytes-IsComponent [] = tt
percent_bytes-IsComponent (b ∷ bs) = (
  percent_unit,
  (
    hex_unit (b / 16 % 16) (omega arith),
    (hex_unit (b % 16) (omega arith), percent_bytes-IsComponent bs),
  ),
)

encode_scalar-IsComponent : (c : ℕ) → IsComponent (encode_scalar c)
unfolding encode_scalar
encode_scalar-IsComponent c = elim (Bool-cases (is_unreserved c)) [
  | inl e ↦ rw e (unreserved c e, tt)
  | inr e ↦ rw e (percent_bytes-IsComponent _)
]
  where
    unreserved : (k : ℕ) → is_unreserved k ≡ true → is_component_unit k ≡ true
    unreserved k h = unfold is_component_unit in rw h

encode_scalars-IsComponent : (cs : List ℕ) (e : Text) → encode_scalars cs ≡ some e → IsComponent e
unfolding encode_scalars
encode_scalars-IsComponent [] e h = let p : [] ≡ e = cc in rw (← p) tt
encode_scalars-IsComponent (c ∷ cs) e h = elim (Option-cases (encode_scalars cs)) [
  | inl stuck ↦ cc (rw stuck at h)
  | inr (rest, ok) ↦ elim (Bool-cases (within 0xD800 0xDFFF c)) [
    | inl lone ↦ cc (rw (ok, lone) at h)
    | inr fine ↦
        let p : encode_scalar c ++ rest ≡ e = cc (rw (ok, fine) at h) in
        rw (← p) (
          All-append (λ d. is_component_unit d ≡ true) (encode_scalar c) rest
            (encode_scalar-IsComponent c) (encode_scalars-IsComponent cs rest ok))
  ]
]

pub encode_uri_component-IsComponent :
    (s e : Text) → encode_uri_component s ≡ some e → IsComponent e
unfolding encode_uri_component
encode_uri_component-IsComponent s e h = encode_scalars-IsComponent (scalars s) e h

abbrev pub is_slash : ℕ → Bool
is_slash c = c == b'/'

no_slash : (c : ℕ) → is_component_unit c ≡ true → is_slash c ≡ false
unfolding is_component_unit is_unreserved
no_slash c h = ground arith

pub IsComponent-HasNo : (s : Text) → IsComponent s → HasNo is_slash s
IsComponent-HasNo [] h = tt
IsComponent-HasNo (c ∷ s) (h, hs) = (no_slash c h, IsComponent-HasNo s hs)

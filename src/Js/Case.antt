-- ===== src/Js/Case.antt =====
-- `toLowerCase` and `toUpperCase`. What they do beyond ASCII is data of the Unicode standard, so
-- they are a parameter; on ASCII units they are these maps.

use purels.Base.{All, if◌then◌else◌, map, refl, within, ℕ, ◌+◌, ◌-◌, ◌<◌, ◌≡◌}
use purels.Js.Text.{Text}

abbrev pub lower_unit : ℕ → ℕ
lower_unit c = if within b'A' b'Z' c then c + 32 else c

abbrev pub upper_unit : ℕ → ℕ
upper_unit c = if within b'a' b'z' c then c - 32 else c

abbrev pub IsAscii : Text → Type 0
IsAscii s = All (λ c. c < 128) s

pub record CaseMapping : Type 0 where
  pub to_lower : Text → Text
  pub to_upper : Text → Text
  pub to_lower_ascii : (s : Text) → IsAscii s → to_lower s ≡ map lower_unit s
  pub to_upper_ascii : (s : Text) → IsAscii s → to_upper s ≡ map upper_unit s

-- The mapping that changes ASCII letters only.
abbrev pub ascii_mapping : CaseMapping
ascii_mapping = record {
  to_lower = map lower_unit;
  to_upper = map upper_unit;
  to_lower_ascii = λ s h. refl;
  to_upper_ascii = λ s h. refl;
}

-- ===== src/Js/Text.antt =====
-- Strings as sequences of UTF-16 code units, with the methods of `String.prototype` and
-- `Array.prototype` that web/src calls.
pub mod Equality
pub mod Trimming
pub mod Splitting
use Prim.Native.Char.{code}
use purels.Base.{
  Bool, List, Option, String, [], false, if◌then◌else◌, leb, none, some, true, within, ℕ, ◌%◌, ◌&&◌,
  ◌++◌, ◌+◌, ◌-◌, ◌/◌, ◌==◌, ◌||◌, ◌∷◌,
}

abbrev pub Text : Type 0
Text = List ℕ

-- A code point above U+FFFF is a surrogate pair.
abbrev pub units : ℕ → Text
units c =
    if leb c 0xFFFF
    then c ∷ []
    else (0xD800 + (c - 0x10000) / 0x400) ∷ (0xDC00 + (c - 0x10000) % 0x400) ∷ []

-- A literal of the source.
abbrev pub text : String → Text
text String.[] = []
text (String.◌∷◌ c s) = units (code c) ++ text s

-- `a === b`.
unfoldable pub same : Text → Text → Bool
same [] [] = true
same (a ∷ as') (b ∷ bs) = a == b && same as' bs
same _ _ = false

-- `s.startsWith(prefix)`.
unfoldable pub starts_with : Text → Text → Bool
starts_with [] s = true
starts_with (p ∷ ps) [] = false
starts_with (p ∷ ps) (c ∷ cs) = p == c && starts_with ps cs

-- `s !== ""`, which is also the truth value of a string.
abbrev pub is_empty : Text → Bool
is_empty [] = true
is_empty (_ ∷ _) = false

-- `list.includes(s)`.
unfoldable pub includes : List Text → Text → Bool
unfolding same
includes [] s = false
includes (x ∷ xs) s = same x s || includes xs s

-- Whether a unit stands in a text.
abbrev pub includes_unit : Text → ℕ → Bool
includes_unit [] c = false
includes_unit (d ∷ ds) c = c == d || includes_unit ds c

-- WhiteSpace and LineTerminator of the language: what `trim` removes and `\s` matches.
unfoldable pub is_space : ℕ → Bool
is_space c =
    within 9 13 c
    || c == 0x20
    || c == 0xA0
    || c == 0x1680
    || within 0x2000 0x200A c
    || c == 0x2028
    || c == 0x2029
    || c == 0x202F
    || c == 0x205F
    || c == 0x3000
    || c == 0xFEFF

unfoldable pub trim_start_by : (ℕ → Bool) → Text → Text
trim_start_by p [] = []
trim_start_by p (c ∷ cs) = if p c then trim_start_by p cs else c ∷ cs

unfoldable pub trim_end_by : (ℕ → Bool) → Text → Text
trim_end_by p [] = []
trim_end_by p (c ∷ cs) =
    let rest = trim_end_by p cs in if p c && is_empty rest then [] else c ∷ rest

-- `s.trim()`.
unfoldable pub trim : Text → Text
unfolding trim_start_by trim_end_by is_space
trim s = trim_end_by is_space (trim_start_by is_space s)

-- `s.replace(/\/+$/, "")`, and `s.replace(/\/$/, "")` for at most one slash.
unfoldable pub drop_slashes : Text → Text
unfolding trim_end_by
drop_slashes s = trim_end_by (λ c. c == b'/') s

unfoldable pub drop_slash : Text → Text
drop_slash [] = []
drop_slash (c ∷ []) = if c == b'/' then [] else c ∷ []
drop_slash (c ∷ d ∷ cs) = c ∷ drop_slash (d ∷ cs)

abbrev pub push_first : ℕ → List Text → List Text
push_first c [] = (c ∷ []) ∷ []
push_first c (p ∷ ps) = (c ∷ p) ∷ ps

-- `s.split(sep)` at every unit that passes the test: the result is never empty.
unfoldable pub split_by : (ℕ → Bool) → Text → List Text
split_by p [] = [] ∷ []
split_by p (c ∷ cs) = let rest = split_by p cs in if p c then [] ∷ rest else push_first c rest

-- `s.split(/[…]+/)`, which splits at each run; the flag says that a run has begun.
unfoldable pub split_runs : (ℕ → Bool) → Bool → Text → List Text
split_runs p inside [] = [] ∷ []
split_runs p inside (c ∷ cs) =
    let run = split_runs p true cs in
    let word = split_runs p false cs in
    if p c then (if inside then run else [] ∷ run) else push_first c word

-- `s.includes(part)`.
unfoldable pub contains_text : Text → Text → Bool
unfolding starts_with
contains_text [] part = is_empty part
contains_text (c ∷ cs) part = starts_with part (c ∷ cs) || contains_text cs part

-- `list.join(sep)`.
unfoldable pub join : Text → List Text → Text
join sep [] = []
join sep (s ∷ []) = s
join sep (s ∷ t ∷ ts) = s ++ (sep ++ join sep (t ∷ ts))

-- `s.split(sep)[0]`.
unfoldable pub before : (ℕ → Bool) → Text → Text
before p [] = []
before p (c ∷ cs) = if p c then [] else c ∷ before p cs

abbrev cut_cons : ℕ → Option (Text × Text) → Option (Text × Text)
cut_cons d none = none
cut_cons d (some (a, b)) = some (d ∷ a, b)

-- `(s.slice(0, i), s.slice(i + 1))` for `i = s.indexOf(c)`; `none` where the index is -1.
unfoldable pub cut_at : ℕ → Text → Option (Text × Text)
cut_at m [] = none
cut_at m (c ∷ cs) = if c == m then some ([], cs) else cut_cons c (cut_at m cs)

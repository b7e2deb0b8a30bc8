-- ===== src/Tags.antt =====
-- web/src/lib/tags.ts: reading a list of tags from one line of text.
pub mod Laws
use purels.Base.{Bool, List, [], false, if◌then◌else◌, ℕ, ◌++◌, ◌==◌, ◌||◌, ◌∷◌}
use purels.Js.Text.{Text, includes, is_empty, is_space, split_runs, trim}

-- The class `[,，\s]`.
unfoldable pub is_separator : ℕ → Bool
unfolding is_space
is_separator c = c == b',' || c == 0xFF0C || is_space c

-- `if (name) seen.add(name)`: a set keeps the order in which its members came.
unfoldable pub add_name : List Text → Text → List Text
unfolding includes
add_name seen name = if is_empty name || includes seen name then seen else seen ++ (name ∷ [])

collect : List Text → List Text → List Text
collect seen [] = seen
collect seen (part ∷ parts) = collect (add_name seen (trim part)) parts

unfoldable pub parse_tags : Text → List Text
unfolding collect add_name split_runs trim is_separator
parse_tags raw = collect [] (split_runs is_separator false raw)

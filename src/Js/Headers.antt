-- ===== src/Js/Headers.antt =====
-- Maps with text keys: request headers, whose names are in lower case, and cookie jars.
use purels.Base.{List, Option, [], arith, if◌then◌else◌, none, some, ◌∷◌, ◌≡◌}
use purels.Js.Text.{Text, same}
use purels.Js.Text.Equality.{same_iff}

abbrev pub Entries : Type 0
Entries = List (Text × Text)

-- `get(name)`: `none` is null.
unfoldable pub get_entry : Entries → Text → Option Text
unfolding same
get_entry [] name = none
get_entry ((k, v) ∷ es) name = if same k name then some v else get_entry es name

-- `delete(name)`.
unfoldable pub delete_entry : Entries → Text → Entries
unfolding same
delete_entry [] name = []
delete_entry ((k, v) ∷ es) name =
    if same k name then delete_entry es name else (k, v) ∷ delete_entry es name

-- `set(name, v)`.
unfoldable pub set_entry : Entries → Text → Text → Entries
unfolding delete_entry
set_entry es name v = (name, v) ∷ delete_entry es name

pub get_entry-delete_entry :
    (es : Entries) (name other : Text)
    → get_entry (delete_entry es name) other
      ≡ (if same name other then none else get_entry es other)
unfolding get_entry delete_entry
get_entry-delete_entry [] name other = ground arith
get_entry-delete_entry ((k, v) ∷ es) name other = ground (
  arith,
  same_iff k name,
  same_iff k other,
  same_iff name other,
  get_entry-delete_entry es name other,
)

pub get_entry-set_entry :
    (es : Entries) (name v other : Text)
    → get_entry (set_entry es name v) other
      ≡ (if same name other then some v else get_entry es other)
unfolding get_entry set_entry
get_entry-set_entry es name v other = ground (arith, get_entry-delete_entry es name other)

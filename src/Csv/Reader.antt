-- ===== src/Csv/Reader.antt =====
-- A reader of RFC 4180 records whose fields are all quoted, written from the standard and not
-- from the writer: a doubled quote stands for one, a comma ends a field, CR LF ends a record.

use purels.Base.{List, Option, [], if◌then◌else◌, none, some, ℕ, ◌++◌, ◌==◌, ◌∷◌}
use purels.Js.Text.{Text}

pub data Mode : Type 0 where
  field_start quoted after_quote after_cr : Mode

pub record Reader : Type 0 where
  pub mode : Mode
  pub field : Text
  pub fields : List Text
  pub records : List (List Text)

abbrev pub start : Reader
start = record { mode = field_start; field = []; fields = []; records = [] }

abbrev pub end_field : Reader → Reader
end_field r = record r { mode = field_start; field = []; fields = r.fields ++ (r.field ∷ []) }

abbrev pub end_record : Reader → Reader
end_record r = record r {
  mode = field_start;
  field = [];
  fields = [];
  records = r.records ++ ((r.fields ++ (r.field ∷ [])) ∷ []);
}

-- `none` refuses the text.
unfoldable pub step : Mode → Reader → ℕ → Option Reader
step field_start r c = if c == b'"' then some (record r { mode = quoted }) else none
step quoted r c =
    if c == b'"'
    then some (record r { mode = after_quote })
    else some (record r { field = r.field ++ (c ∷ []) })
step after_quote r c =
    if c == b'"'
    then some (record r { mode = quoted; field = r.field ++ (c ∷ []) })
    else if c == b','
    then some (end_field r)
    else if c == 13
    then some (record r { mode = after_cr })
    else none
step after_cr r c = if c == 10 then some (end_record r) else none

unfoldable pub finish : Mode → Reader → Option (List (List Text))
finish after_quote r = some (end_record r).records
finish _ r = none

infixl 5 ◌>>=◌
abbrev pub ◌>>=◌ {ℓ κ} : {A : Type ℓ} {B : Type κ} → Option A → (A → Option B) → Option B
none >>= k = none
some a >>= k = k a

unfoldable pub read : Reader → Text → Option (List (List Text))
unfolding step finish
read r [] = finish r.mode r
read r (c ∷ cs) = do q ← step r.mode r c; read q cs

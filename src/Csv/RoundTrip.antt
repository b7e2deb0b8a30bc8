-- ===== src/Csv/RoundTrip.antt =====
-- Serialised tables, read back (lib/csv.ts).

use purels.Base.{
  ==_iff, Bool-cases, List, [], ap, append-nil, append_assoc, arith, inl, inr, map, refl, some, sym,
  ◌++◌, ◌==◌, ◌∙◌, ◌∷◌, ◌≡◌,
}
use purels.Csv.{csv_body, double_quotes, escape}
use purels.Csv.Reader.{
  Reader, after_quote, end_record, field_start, finish, quoted, read, start, step,
}
use purels.Js.Text.{Text, join, text}
use purels.Js.Text.Splitting.{IsSome}

read-double_quotes :
    (value rest : Text) (r : Reader)
    → r.mode ≡ quoted
    → read r (double_quotes value ++ (b'"' ∷ rest))
      ≡ read (record r { mode = after_quote; field = r.field ++ value }) rest
unfolding read step double_quotes
read-double_quotes [] rest r m = rw (append-nil r.field) (ground arith)
read-double_quotes (c ∷ value) rest r m = elim (Bool-cases (c == b'"')) [
  | inl quote ↦ rw quote (
      ground (
        arith,
        ==_iff c b'"',
        read-double_quotes value rest (record r { field = r.field ++ (c ∷ []) }) m,
        append_assoc r.field (c ∷ []) value,
      ))
  | inr plain ↦ rw plain (
      ground (
        arith,
        read-double_quotes value rest (record r { field = r.field ++ (c ∷ []) }) m,
        append_assoc r.field (c ∷ []) value,
      ))
]

read-escape :
    (value rest : Text) (r : Reader)
    → r.mode ≡ field_start
    → r.field ≡ []
    → read r (escape value ++ rest) ≡ read (record r { mode = after_quote; field = value }) rest
unfolding read step escape
read-escape value rest r m e =
    rw (m, append_assoc (double_quotes value) (b'"' ∷ []) rest)
      (read-double_quotes value rest (record r { mode = quoted }) refl ∙ rw e)

abbrev row_text : List Text → Text
row_text row = join (text ",") (map escape row)

-- The reader after a whole row: inside no field, with the row ready to be recorded.
record HasRead (r : Reader) (row : List Text) : Type 0 where
  last : Reader
  reads : (rest : Text) → read r (row_text row ++ rest) ≡ read last rest
  closed : last.mode ≡ after_quote
  recorded : end_record last ≡ record {
    mode = field_start;
    field = [];
    fields = [];
    records = r.records ++ ((r.fields ++ row) ∷ []);
  }

read_comma :
    (rest : Text) (r : Reader) (value : Text)
    → read (record r { mode = after_quote; field = value }) (b',' ∷ rest)
      ≡ read (record r { fields = r.fields ++ (value ∷ []); field = []; mode = field_start }) rest
unfolding read step
read_comma rest r value = refl

read_row :
    (value : Text) (row : List Text) (r : Reader)
    → r.mode ≡ field_start
    → r.field ≡ []
    → HasRead r (value ∷ row)
unfolding join
read_row value [] r m e = record {
  last = record r { mode = after_quote; field = value };
  reads = λ rest. read-escape value rest r m e;
  closed = refl;
  recorded = refl;
}
read_row value (next ∷ row) r m e =
    let after = record r { fields = r.fields ++ (value ∷ []); field = []; mode = field_start } in
    let h = read_row next row after refl refl in
    record {
      last = h.last;
      reads = λ rest.
          ap (read r) (append_assoc (escape value) (b',' ∷ row_text (next ∷ row)) rest)
          ∙ read-escape value (b',' ∷ (row_text (next ∷ row) ++ rest)) r m e
          ∙ read_comma (row_text (next ∷ row) ++ rest) r value
          ∙ h.reads rest;
      closed = h.closed;
      recorded = h.recorded ∙ rw (append_assoc r.fields (value ∷ []) (next ∷ row));
    }

-- A table that a reader can tell from another: some row, and some cell in each row.
abbrev pub IsTable : List (List Text) → Type 0
IsTable [] = ⊥
IsTable (row ∷ []) = IsSome row
IsTable (row ∷ next ∷ rows) = IsSome row × IsTable (next ∷ rows)

read_rows :
    (rows done : List (List Text))
    → IsTable rows
    → read (record start { records = done }) (csv_body rows) ≡ some (done ++ rows)
unfolding csv_body join read step finish
read_rows [] done h = absurd h
read_rows ([] ∷ []) done h = absurd h
read_rows ((value ∷ row) ∷ []) done h =
    let r = read_row value row (record start { records = done }) refl refl in
    ap (read (record start { records = done })) (sym (append-nil (row_text (value ∷ row))))
    ∙ r.reads []
    ∙ rw r.closed (ap (λ q. some q.records) r.recorded)
read_rows ([] ∷ next ∷ rows) done h = absurd h.0
read_rows ((value ∷ row) ∷ next ∷ rows) done (_, h) =
    let r = read_row value row (record start { records = done }) refl refl in
    r.reads (13 ∷ 10 ∷ csv_body (next ∷ rows))
    ∙ rw (r.closed) (
        ap (λ q. read q (csv_body (next ∷ rows))) r.recorded
        ∙ read_rows (next ∷ rows) (done ++ ((value ∷ row) ∷ [])) h
        ∙ ap some (append_assoc done ((value ∷ row) ∷ []) (next ∷ rows)))

-- A reader of quoted CSV records gives back the rows that were serialised, for every table with
-- a row and with a cell in each row, whatever the cells hold.
pub read-csv_body :
    (rows : List (List Text)) → IsTable rows → read start (csv_body rows) ≡ some rows
read-csv_body rows h = read_rows rows [] h

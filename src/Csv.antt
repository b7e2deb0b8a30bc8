-- ===== src/Csv.antt =====
-- web/src/lib/csv.ts: serialising rows to CSV text, and the download that hands it over.
pub mod Reader
pub mod RoundTrip
use purels.Base.{List, [], if◌then◌else◌, map, ◌++◌, ◌==◌, ◌∷◌}
use purels.Js.Text.{Text, join, text}

-- What a download does to the document; the object URL is the browser's own.
pub data Effect : Type 0 where
  create_object_url : Text → Effect
  set_href : Text → Effect
  set_download : Text → Effect
  append_anchor click remove_anchor : Effect
  revoke_object_url : Text → Effect

-- `url` is what `URL.createObjectURL` returned for the blob of the content.
unfoldable pub download_csv_text : Text → Text → Text → List Effect
download_csv_text url filename content =
    create_object_url content
    ∷ set_href url
    ∷ set_download filename
    ∷ append_anchor
    ∷ click
    ∷ remove_anchor
    ∷ revoke_object_url url
    ∷ []

-- `value.replace(/"/g, '""')`.
unfoldable pub double_quotes : Text → Text
double_quotes [] = []
double_quotes (c ∷ cs) = if c == b'"' then b'"' ∷ b'"' ∷ double_quotes cs else c ∷ double_quotes cs

-- `String(value)` is the identity on a string; a number has no quote, so its text is a cell too.
unfoldable pub escape : Text → Text
unfolding double_quotes
escape value = b'"' ∷ (double_quotes value ++ (b'"' ∷ []))

unfoldable pub csv_body : List (List Text) → Text
unfolding escape join
csv_body rows = join (13 ∷ 10 ∷ []) (map (λ row. join (text ",") (map escape row)) rows)

unfoldable pub download_csv : Text → Text → List (List Text) → List Effect
unfolding csv_body download_csv_text
download_csv url filename rows = download_csv_text url filename (0xFEFF ∷ csv_body rows)

-- ===== src/Pdf/Fields.antt =====
-- The objects, the signature fields and the signatures of a document
-- (api/src/documents/pdf/pdf-objects.ts).
use onlineaggrement.Base.{
  ℕ, suc, ◌-◌, Bool, ◌&&◌, List, [], ◌∷◌, ◌++◌, Option, none, some, Text, take, drop, length, codes,
  trim, if◌then◌else◌,
}
use onlineaggrement.Errors.{Result, ok, err}
use onlineaggrement.Pdf.Scanning.{index_of, includes_text, slice}
use onlineaggrement.Pdf.Patterns.{object_header, ByteRange, byte_range_at}
use onlineaggrement.Pdf.Objects.{◌>>=◌, or_error, Offsets, get_key, PdfObject}

-- Half a mebibyte from the offset of the object.
unfoldable pub read_object : List ℕ → Offsets → ℕ → Result PdfObject
read_object buf offsets num = do
  offset ← or_error (get_key num offsets) "object not in xref"
  let s = take 524288 (drop offset buf)
  head ← or_error (object_header num s) "object header not found"
  let header_length = length s - length head.1
  end ← or_error (index_of (codes "endobj") s header_length) "object has no endobj"
  ok (record { num = num; gen = head.0; body = trim (slice s header_length end) })

-- The first object, in the order of the index, that is read and passes the test.
unfoldable pub find_object : List ℕ → Offsets → (Text → Bool) → Offsets → Option PdfObject
find_object buf offsets p [] = none
find_object buf offsets p ((num, off) ∷ keys) =
    let later = find_object buf offsets p keys in
    elim (read_object buf offsets num) [
      | err x ↦ later
      | ok obj ↦ if p obj.body then some obj else later
    ]

abbrev is_field : Text → Text → Bool
is_field name body =
    includes_text (codes "/T (" ++ (name ++ codes ")")) body
    && includes_text (codes "/FT /Sig") body

unfoldable pub find_field_by_name : List ℕ → Offsets → Text → Result PdfObject
find_field_by_name buf offsets name =
    or_error (find_object buf offsets (is_field name) offsets) "signature field not found"

unfoldable pub find_object_containing : List ℕ → Offsets → Text → Option PdfObject
find_object_containing buf offsets needle = find_object buf offsets (includes_text needle) offsets

-- A place of -1 is `none`; `contents_end` is the place of the `>`, and one.
pub record PdfSignatureSlot : Type 0 where
  pub byte_range : ByteRange
  pub contents_start : Option ℕ
  pub contents_end : ℕ
  pub hex : Text

-- `s.indexOf(needle, from)`, where a start of -1 is 0.
abbrev from_place : Option ℕ → ℕ
from_place none = 0
from_place (some i) = i

abbrev after_place : Option ℕ → ℕ
after_place none = 0
after_place (some i) = suc i

-- `s.slice(open + 1, close)`, where an end of -1 is the last place.
abbrev hex_between : Text → Option ℕ → Option ℕ → Text
hex_between s open_at none = slice s (after_place open_at) (length s - 1)
hex_between s open_at (some close_at) = slice s (after_place open_at) close_at

unfoldable pub signature_at : Text → ByteRange → ℕ → PdfSignatureSlot
signature_at s range tag =
    let open_at = index_of (codes "<") s tag in
    let close_at = index_of (codes ">") s (from_place open_at) in
    record {
      byte_range = range;
      contents_start = open_at;
      contents_end = after_place close_at;
      hex = hex_between s open_at close_at;
    }

-- A range with no `/Contents` after it is passed over.
abbrev found_at : Text → ByteRange → Option ℕ → List PdfSignatureSlot → List PdfSignatureSlot
found_at s range none slots = slots
found_at s range (some tag) slots = signature_at s range tag ∷ slots

-- The matches of the expression do not overlap, so each place is tried.
unfoldable pub signatures_from : Text → Text → ℕ → List PdfSignatureSlot
signatures_from s [] i = []
signatures_from s (c ∷ rest) i =
    let later = signatures_from s rest (suc i) in
    elim (byte_range_at (c ∷ rest)) [
      | none ↦ later
      | some range ↦ found_at s range (index_of (codes "/Contents") s i) later
    ]

-- Every /ByteRange of the file, with its /Contents.
unfoldable pub find_signatures : List ℕ → List PdfSignatureSlot
find_signatures buf = signatures_from buf buf 0

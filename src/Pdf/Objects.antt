-- ===== src/Pdf/Objects.antt =====
-- The structural parser of PDF files (api/src/documents/pdf/pdf-objects.ts). A function that loops
-- as long as its input lets it takes fuel, and is `none` when the fuel runs out.
pub mod Termination
use onlineaggrement.Base.{
  ℕ, zero, suc, ◌+◌, ◌-◌, Bool, true, false, not, ◌&&◌, ◌||◌, List, [], ◌∷◌, ◌++◌, Option, none,
  some, Text, length, take, drop, nat_eq, ltb, includes, ◌==◌, ℕ_eq, if◌then◌else◌, codes, decimal,
  trim, map, String,
}
use onlineaggrement.Errors.{Result, ok, err, other_error}
use onlineaggrement.Pdf.Scanning.{index_of, last_index_of, starts_with, includes_text, slice}
use onlineaggrement.Pdf.Patterns.{
  startxref_value, Header, subsection_header, xref_entry, prev_value, size_value, root_value,
  object_header, ByteRange, byte_range_at,
}

infixl 5 ◌>>=◌ ◌>>◌
abbrev pub ◌>>=◌ : {A B : Type 0} → Result A → (A → Result B) → Result B
ok a >>= f = f a
err e >>= f = err e

abbrev pub ◌>>◌ : {A B : Type 0} → Result A → Result B → Result B
ok a >> k = k
err e >> k = err e

abbrev pub or_error : {A : Type 0} → Option A → String → Result A
or_error none message = err (other_error message)
or_error (some a) message = ok a

abbrev pub error_if : Bool → String → Result (Unit {0})
error_if true message = err (other_error message)
error_if false message = ok tt

-- A map from object numbers to offsets, in order of insertion.
abbrev pub Offsets : Type 0
Offsets = List (ℕ × ℕ)

unfoldable pub has_key : ℕ → Offsets → Bool
has_key k [] = false
has_key k ((j, v) ∷ m) = j == k || has_key k m

unfoldable pub get_key : ℕ → Offsets → Option ℕ
get_key k [] = none
get_key k ((j, v) ∷ m) = if j == k then some v else get_key k m

unfoldable pub set_key : ℕ → ℕ → Offsets → Offsets
set_key k v [] = (k, v) ∷ []
set_key k v ((j, w) ∷ m) = let rest = set_key k v m in if j == k then (j, v) ∷ m else (j, w) ∷ rest

pub record PdfDocumentIndex : Type 0 where
  pub offsets : Offsets
  pub trailer : Text
  pub size : ℕ
  pub root_num : ℕ
  pub root_gen : ℕ

pub record PdfObject : Type 0 where
  pub num : ℕ
  pub gen : ℕ
  pub body : Text

unfoldable pub find_start_xref : List ℕ → Result ℕ
find_start_xref buf = do
  let tail = drop (length buf - 2048) buf
  idx ← or_error (last_index_of (codes "startxref") tail) "startxref not found"
  or_error (startxref_value (drop idx tail)) "startxref value unparseable"

-- The depth is the number of `<<` less the number of `>>`.
unfoldable pub dict_end : Text → (i opened closed : ℕ) → Result ℕ
dict_end [] i opened closed = err (other_error "unterminated dictionary")
dict_end (c ∷ []) i opened closed = err (other_error "unterminated dictionary")
dict_end (c ∷ d ∷ s) i opened closed =
    let at_open = dict_end s (i + 2) (suc opened) closed in
    let at_close = dict_end s (i + 2) opened (suc closed) in
    let further = dict_end (d ∷ s) (suc i) opened closed in
    if nat_eq c b'<' && nat_eq d b'<'
    then at_open
    else if nat_eq c b'>' && nat_eq d b'>'
    then if nat_eq opened (suc closed) then ok (i + 2) else at_close
    else further

-- Given the index of `<<`, the index just past its matching `>>`. A search from -1 is one from 0.
unfoldable pub find_dict_end : Text → Option ℕ → Result ℕ
find_dict_end s none = dict_end s 0 0 0
find_dict_end s (some start) = dict_end (drop start s) start 0 0

pub record Entries : Type 0 where
  pub entries : Offsets
  pub rest : Text

abbrev pub with_entry : ℕ → Entries → ℕ × Bool → Entries
with_entry num e found = record {
  entries = if found.1 then set_key num found.0 e.entries else e.entries;
  rest = drop 20 e.rest;
}

-- The entries of one subsection, each of twenty bytes.
unfoldable pub read_entries : (count num : ℕ) → Entries → Result Entries
read_entries zero num e = ok e
read_entries (suc count) num e = elim (xref_entry (take 20 e.rest)) [
  | none ↦ err (other_error "malformed xref entry")
  | some (offset, in_use) ↦ read_entries count (suc num) (record {
    entries = if in_use then set_key num offset e.entries else e.entries;
    rest = drop 20 e.rest;
  })
]

-- The loop over the subsections.
unfoldable pub read_subsections : (fuel : ℕ) → Entries → Option (Result Entries)
read_subsections zero e = none
read_subsections (suc fuel) e = elim (subsection_header e.rest) [
  | none ↦ some (ok e)
  | some h ↦ elim (read_entries h.count h.start (record { entries = e.entries; rest = h.rest })) [
    | err x ↦ some (err x)
    | ok e' ↦ read_subsections fuel e'
  ]
]

pub record XrefSection : Type 0 where
  pub entries : Offsets
  pub trailer : Text
  pub prev : Option ℕ

-- `s.slice(start, end)`, where a start of -1 is the last place.
abbrev slice_from : Text → Option ℕ → ℕ → Text
slice_from s none end = slice s (length s - 1) end
slice_from s (some start) end = slice s start end

-- What stands after the subsections, at `pos`.
unfoldable pub read_trailer : Text → Entries → Result XrefSection
read_trailer s e = do
  let pos = length s - length e.rest
  at ← or_error (index_of (codes "trailer") s pos) "trailer not found after xref table"
  let dict_start = index_of (codes "<<") s at
  end ← find_dict_end s dict_start
  let trailer = slice_from s dict_start end
  ok (record { entries = e.entries; trailer = trailer; prev = prev_value trailer })

abbrev pub then_trailer : Text → Option (Result Entries) → Option (Result XrefSection)
then_trailer s none = none
then_trailer s (some (err x)) = some (err x)
then_trailer s (some (ok e)) = some (read_trailer s e)

-- One mebibyte of the document, from the offset.
abbrev pub window : List ℕ → ℕ → Text
window buf offset = take 1048576 (drop offset buf)

abbrev no_xref : Option (Result XrefSection)
no_xref = some (err (other_error "expected a classic xref table"))

unfoldable pub parse_section_text : Text → Option (Result XrefSection)
parse_section_text s =
    let section =
      then_trailer s
        (read_subsections (suc (length s)) (record { entries = []; rest = drop 4 s })) in
    if starts_with (codes "xref") s then section else no_xref

unfoldable pub parse_xref_section : List ℕ → ℕ → Option (Result XrefSection)
parse_xref_section buf offset = parse_section_text (window buf offset)

-- An object number that is there is not overwritten.
unfoldable pub merge_older : Offsets → Offsets → Offsets
merge_older offsets [] = offsets
merge_older offsets ((num, off) ∷ entries) =
    merge_older (if has_key num offsets then offsets else offsets ++ (num, off) ∷ []) entries

pub record Walk : Type 0 where
  pub offsets : Offsets
  pub seen : List ℕ
  pub newest_trailer : Option Text

abbrev or_else : Option Text → Text → Option Text
or_else none t = some t
or_else (some s) t = some s

unfoldable pub walked : Walk → ℕ → XrefSection → Walk
walked w offset section = record {
  offsets = merge_older w.offsets section.entries;
  seen = offset ∷ w.seen;
  newest_trailer = or_else w.newest_trailer section.trailer;
}

-- The loop over the chain of sections, the newest first.
unfoldable pub walk_sections : (fuel : ℕ) → List ℕ → Option ℕ → Walk → Option (Result Walk)
walk_sections fuel buf none w = some (ok w)
walk_sections zero buf (some offset) w = none
walk_sections (suc fuel) buf (some offset) w = elim (includes w.seen offset) [
  | true ↦ some (err (other_error "cyclic /Prev chain"))
  | false ↦ elim (parse_xref_section buf offset) [
    | none ↦ none
    | some r ↦ elim r [
      | err x ↦ some (err x)
      | ok section ↦ walk_sections fuel buf section.prev (walked w offset section)
    ]
  ]
]

abbrev trailer_of : Option Text → Text
trailer_of none = []
trailer_of (some t) = t

unfoldable pub index_of_walk : Walk → Result PdfDocumentIndex
index_of_walk w = do
  let trailer = trailer_of w.newest_trailer
  size ← or_error (size_value trailer) "trailer has no /Size"
  root ← or_error (root_value trailer) "trailer has no /Root"
  ok (record {
    offsets = w.offsets;
    trailer = trailer;
    size = size;
    root_num = root.0;
    root_gen = root.1;
  })

abbrev pub then_index : Option (Result Walk) → Option (Result PdfDocumentIndex)
then_index none = none
then_index (some (err x)) = some (err x)
then_index (some (ok w)) = some (index_of_walk w)

abbrev pub no_sections : Walk
no_sections = record { offsets = []; seen = []; newest_trailer = none }

abbrev pub then_walk : List ℕ → Result ℕ → Option (Result PdfDocumentIndex)
then_walk buf (err x) = some (err x)
then_walk buf (ok start) =
    then_index (walk_sections (suc (length buf)) buf (some start) no_sections)

-- Two sections do not begin at one offset, and none begins past the end.
unfoldable pub parse_document : List ℕ → Option (Result PdfDocumentIndex)
parse_document buf = then_walk buf (find_start_xref buf)

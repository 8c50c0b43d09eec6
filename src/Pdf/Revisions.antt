-- ===== src/Pdf/Revisions.antt =====
-- Incremental updates (api/src/documents/pdf/incremental-signer.ts): the bytes that are there
-- stay, and a revision is appended.
use onlineaggrement.Base.{
  ℕ, ◌+◌, ◌/◌, ◌%◌, Bool, List, [], ◌∷◌, ◌++◌, Option, none, some, Text, length, decimal, pad_start,
  codes, leb, nat_eq, ◌||◌, max, if◌then◌else◌, reverse, take,
}
use onlineaggrement.Errors.{Result, ok}
use onlineaggrement.Pdf.Scanning.{last_index_of, slice, is_space}
use onlineaggrement.Pdf.Patterns.{id_value}
use onlineaggrement.Pdf.Objects.{
  ◌>>=◌, or_error, Offsets, get_key, set_key, PdfDocumentIndex, find_start_xref,
}

unfoldable pub pad10 : ℕ → Text
pad10 n = pad_start (decimal n) 10

-- A backslash before each backslash and parenthesis.
unfoldable pub escape_pdf_text : Text → Text
escape_pdf_text [] = []
escape_pdf_text (c ∷ s) =
    if nat_eq c b'\\' || nat_eq c b'(' || nat_eq c b')'
    then b'\\' ∷ c ∷ escape_pdf_text s
    else c ∷ escape_pdf_text s

-- A time on the calendar of the host, with its offset from UTC in minutes.
pub record LocalTime : Type 0 where
  pub year : ℕ
  pub month : ℕ
  pub day : ℕ
  pub hours : ℕ
  pub minutes : ℕ
  pub seconds : ℕ
  pub ahead : Bool
  pub offset : ℕ

unfoldable pub pdf_date : LocalTime → Text
pdf_date d =
    let two = λ (n : ℕ). pad_start (decimal n) 2 in
    codes "D:"
    ++ (decimal d.year
        ++ (two d.month
            ++ (two d.day
                ++ (two d.hours
                    ++ (two d.minutes
                        ++ (two d.seconds
                            ++ (codes (if d.ahead then "+" else "-")
                                ++ (two (d.offset / 60)
                                    ++ (codes "'" ++ (two (d.offset % 60) ++ codes "'"))))))))))

pub record RevisionObject : Type 0 where
  pub num : ℕ
  pub gen : ℕ
  pub content : Text

-- `[...objects].sort((a, b) => a.num - b.num)`: equal numbers keep their order.
unfoldable pub insert_sorted : RevisionObject → List RevisionObject → List RevisionObject
insert_sorted o [] = o ∷ []
insert_sorted o (p ∷ l) =
    let rest = insert_sorted o l in if leb o.num p.num then o ∷ p ∷ l else p ∷ rest

unfoldable pub sort_objects : List RevisionObject → List RevisionObject
sort_objects [] = []
sort_objects (o ∷ l) = insert_sorted o (sort_objects l)

abbrev pub last_num : List RevisionObject → Option ℕ
last_num [] = none
last_num (o ∷ l) = elim (last_num l) [ none ↦ some o.num | some n ↦ some n ]

unfoldable pub object_text : RevisionObject → Text
object_text o =
    decimal o.num
    ++ (codes " " ++ (decimal o.gen ++ (codes " obj\n" ++ (o.content ++ codes "\nendobj\n"))))

pub record Body : Type 0 where
  pub text : Text
  pub offsets : Offsets

-- The objects one after the other, each with the offset at which it begins.
unfoldable pub write_objects : ℕ → List RevisionObject → Body → Body
write_objects buf_length [] b = b
write_objects buf_length (o ∷ l) b = write_objects buf_length l (record {
  text = b.text ++ object_text o;
  offsets = set_key o.num (buf_length + length b.text) b.offsets;
})

-- Each object was given an offset.
abbrev offset_of : Option ℕ → ℕ
offset_of none = 0
offset_of (some n) = n

unfoldable pub xref_line : Offsets → RevisionObject → Text
xref_line offsets o =
    decimal o.num
    ++ (codes " 1\n"
        ++ (pad10 (offset_of (get_key o.num offsets))
            ++ (codes " " ++ (pad_start (decimal o.gen) 5 ++ codes " n \n"))))

unfoldable pub xref_lines : Offsets → List RevisionObject → Text
xref_lines offsets [] = []
xref_lines offsets (o ∷ l) = xref_line offsets o ++ xref_lines offsets l

unfoldable pub id_part : Option (Text × Text) → Text
id_part none = []
id_part (some (a, b)) = codes " /ID [<" ++ (a ++ (codes "> <" ++ (b ++ codes ">]")))

unfoldable pub trailer_text : PdfDocumentIndex → (size prev xref_offset : ℕ) → Text
trailer_text doc size prev xref_offset =
    codes "trailer\n<< /Size "
    ++ (decimal size
        ++ (codes " /Root "
            ++ (decimal doc.root_num
                ++ (codes " "
                    ++ (decimal doc.root_gen
                        ++ (codes " R"
                            ++ (id_part (id_value doc.trailer)
                                ++ (codes " /Prev "
                                    ++ (decimal prev
                                        ++ (codes " >>\nstartxref\n"
                                            ++ (decimal xref_offset ++ codes "\n%%EOF\n")))))))))))

-- What is appended to a document of the given length.
unfoldable pub revision_text : ℕ → PdfDocumentIndex → List RevisionObject → (prev last : ℕ) → Text
revision_text buf_length doc sorted prev last =
    let body = write_objects buf_length sorted (record { text = codes "\n"; offsets = [] }) in
    body.text
    ++ (codes "xref\n0 1\n0000000000 65535 f \n"
        ++ (xref_lines body.offsets sorted
            ++ trailer_text doc (max doc.size (last + 1)) prev (buf_length + length body.text)))

unfoldable pub append_revision : List ℕ → PdfDocumentIndex → List RevisionObject → Result (List ℕ)
append_revision buf doc objects = do
  prev ← find_start_xref buf
  let sorted = sort_objects objects
  last ← or_error (last_num sorted) "TypeError"
  ok (buf ++ revision_text (length buf) doc sorted prev last)

trim_end_reversed : Text → Text
trim_end_reversed [] = []
trim_end_reversed (c ∷ s) = let rest = trim_end_reversed s in if is_space c then rest else c ∷ s

-- `trimEnd`, on bytes.
unfoldable pub trim_end : Text → Text
unfolding trim_end_reversed
trim_end s = reverse (trim_end_reversed (reverse s))

unfoldable pub inject_into_dict : Text → Text → Result Text
inject_into_dict dict extra = do
  close ← or_error (last_index_of (codes ">>") dict) "object body is not a dictionary"
  ok (
      trim_end (take close dict)
      ++ (codes " " ++ (extra ++ (codes " " ++ slice dict close (length dict)))))

-- ===== src/Pdf/Slots.antt =====
-- The two phases of a signature (prepareSignatureSlot, embedSignature and reopenSignatureSlot of
-- api/src/documents/pdf/incremental-signer.ts): the revision is appended with an empty gap, and
-- the gap is filled when the signature comes.
pub mod Appended
pub mod Filled
pub mod ReadBack
use onlineaggrement.Base.{
  ℕ, zero, suc, ◌+◌, ◌-◌, ◌*◌, ◌/◌, ◌%◌, Bool, true, false, not, ◌&&◌, ◌||◌, List, [], ◌∷◌, ◌++◌,
  Option, none, some, Text, length, take, drop, zeros, codes, ltb, leb, nat_eq, if◌then◌else◌,
  decimal,
}
use onlineaggrement.Errors.{Result, ok, err, other_error}
use onlineaggrement.Pdf.Scanning.{index_of, includes_text}
use onlineaggrement.Pdf.Patterns.{signature_value, ByteRange}
use onlineaggrement.Pdf.Objects.{
  ◌>>=◌, ◌>>◌, or_error, error_if, PdfDocumentIndex, PdfObject, parse_document,
}
use onlineaggrement.Pdf.Fields.{PdfSignatureSlot, find_field_by_name, find_signatures}
use onlineaggrement.Pdf.Revisions.{
  pad10, escape_pdf_text, LocalTime, pdf_date, RevisionObject, append_revision, inject_into_dict,
}

pub record SlotOptions : Type 0 where
  pub field_name : Text
  pub name : Text
  pub reason : Text
  pub location : Text
  pub signed_at : LocalTime
  pub reserved_bytes : Option ℕ

-- A length below zero is `none`.
pub record PreparedSignatureSlot : Type 0 where
  pub buffer : List ℕ
  pub byte_range : ByteRange
  pub gap_start : ℕ
  pub hex_length : Option ℕ
  pub signed_content : List ℕ

-- `Buffer.write(text, pos, 'latin1')`: what does not fit is not written.
unfoldable pub write_at : ℕ → Text → List ℕ → List ℕ
write_at zero [] s = s
write_at zero (x ∷ t) [] = []
write_at zero (x ∷ t) (c ∷ s) = x ∷ write_at zero t s
write_at (suc p) t [] = []
write_at (suc p) t (c ∷ s) = c ∷ write_at p t s

-- The bytes that a range covers: all but the gap.
unfoldable pub content_of : ByteRange → List ℕ → List ℕ
content_of r s = take r.before (drop r.start s) ++ take r.after (drop r.resume s)

abbrev pub reserved_of : Option ℕ → ℕ
reserved_of none = 8192
reserved_of (some n) = n

abbrev pub placeholder : Text
placeholder = codes "[0 0000000000 0000000000 0000000000]"

unfoldable pub signature_object : SlotOptions → ℕ → Text
signature_object opts hex_length =
    codes "<< /Type /Sig /Filter /Adobe.PPKLite /SubFilter /adbe.pkcs7.detached /Name ("
    ++ (escape_pdf_text opts.name
        ++ (codes ") /Reason ("
            ++ (escape_pdf_text opts.reason
                ++ (codes ") /Location ("
                    ++ (escape_pdf_text opts.location
                        ++ (codes ") /M ("
                            ++ (pdf_date opts.signed_at
                                ++ (codes ") /ByteRange "
                                    ++ (placeholder
                                        ++ (codes " /Contents <"
                                            ++ (zeros hex_length ++ codes "> >>")))))))))))

unfoldable pub signature_objects :
    SlotOptions → PdfDocumentIndex → PdfObject → ℕ → Text → List RevisionObject
signature_objects opts doc field hex_length value =
    record { num = doc.size; gen = 0; content = signature_object opts hex_length }
    ∷ record { num = field.num; gen = field.gen; content = value }
    ∷ []

unfoldable pub filled_range : ByteRange → Text
filled_range r =
    codes "/ByteRange [0 "
    ++ (pad10 r.before
        ++ (codes " " ++ (pad10 r.resume ++ (codes " " ++ (pad10 r.after ++ codes "]")))))

-- The revision holds the text that each of the searches looks for.
unfoldable pub gap_of : List ℕ → ℕ → Result ByteRange
gap_of out br_pos = do
  tag ← or_error (index_of (codes "/Contents") out br_pos) "unreachable"
  gap_start ← or_error (index_of (codes "<") out tag) "unreachable"
  gap_end ← or_error (index_of (codes ">") out gap_start) "unreachable"
  ok (record {
    start = 0;
    before = gap_start;
    resume = gap_end + 1;
    after = length out - (gap_end + 1);
  })

-- The range is written before the content is read: its bytes are signed too.
unfoldable pub open_slot : ℕ → ℕ → List ℕ → Result PreparedSignatureSlot
open_slot buf_length hex_length out = do
  br_pos ←
      or_error (index_of (codes "/ByteRange " ++ placeholder) out buf_length)
        "ByteRange placeholder lost"
  range ← gap_of out br_pos
  error_if
      (not (nat_eq (length (filled_range range)) (length (codes "/ByteRange " ++ placeholder))))
      "ByteRange patch would change file length"
  let patched = write_at br_pos (filled_range range) out
  ok (record {
    buffer = patched;
    byte_range = range;
    gap_start = range.before;
    hex_length = some hex_length;
    signed_content = content_of range patched;
  })

abbrev pub is_some {ℓ} : {A : Type ℓ} → Option A → Bool
is_some none = false
is_some (some a) = true

unfoldable pub prepare_indexed :
    List ℕ → SlotOptions → PdfDocumentIndex → Result PreparedSignatureSlot
prepare_indexed buf opts doc = do
  field ← find_field_by_name buf doc.offsets opts.field_name
  error_if (is_some (signature_value field.body)) "signature field is already signed"
  let hex_length = reserved_of opts.reserved_bytes * 2
  value ← inject_into_dict field.body (codes "/V " ++ (decimal doc.size ++ codes " 0 R"))
  out ← append_revision buf doc (signature_objects opts doc field hex_length value)
  open_slot (length buf) hex_length out

abbrev pub then_prepare :
    List ℕ → SlotOptions → Option (Result PdfDocumentIndex) → Option (Result PreparedSignatureSlot)
then_prepare buf opts none = none
then_prepare buf opts (some (err x)) = some (err x)
then_prepare buf opts (some (ok doc)) = some (prepare_indexed buf opts doc)

unfoldable pub prepare_signature_slot : List ℕ → SlotOptions → Option (Result PreparedSignatureSlot)
prepare_signature_slot buf opts = then_prepare buf opts (parse_document buf)

abbrev pub hex_digit : ℕ → ℕ
hex_digit n = if ltb n 10 then 48 + n else 55 + n

-- `der.toString('hex').toUpperCase()`
unfoldable pub to_hex : List ℕ → Text
to_hex [] = []
to_hex (b ∷ der) = hex_digit (b / 16) ∷ hex_digit (b % 16) ∷ to_hex der

-- `padEnd`
unfoldable pub pad_end : Text → ℕ → Text
pad_end s n = s ++ zeros (n - length s)

abbrev pub fits : ℕ → Option ℕ → Bool
fits n none = false
fits n (some room) = leb n room

abbrev pub room_of : Option ℕ → ℕ
room_of none = 0
room_of (some n) = n

unfoldable pub embed_signature : PreparedSignatureSlot → List ℕ → Result (List ℕ)
embed_signature slot der = do
  let hex = to_hex der
  error_if (not (fits (length hex) slot.hex_length)) "signature does not fit"
  ok (write_at (suc slot.gap_start) (pad_end hex (room_of slot.hex_length)) slot.buffer)

-- `/^0*$/`
unfoldable pub all_zeros : Text → Bool
all_zeros [] = true
all_zeros (c ∷ s) = nat_eq c b'0' && all_zeros s

unfoldable pub unfilled : List PdfSignatureSlot → List PdfSignatureSlot
unfilled [] = []
unfilled (s ∷ slots) = if all_zeros s.hex then s ∷ unfilled slots else unfilled slots

abbrev is_place : Option ℕ → ℕ → Bool
is_place none n = false
is_place (some i) n = nat_eq i n

abbrev pub gap_length : ℕ → ℕ → Option ℕ
gap_length start end = if leb (start + 2) end then some (end - start - 2) else none

abbrev pub fits_gap : PdfSignatureSlot → Bool
fits_gap slot =
    is_place slot.contents_start slot.byte_range.before
    && nat_eq slot.byte_range.resume slot.contents_end

unfoldable pub reopen_slot : List ℕ → PdfSignatureSlot → Result PreparedSignatureSlot
reopen_slot pending slot = do
  error_if (not (fits_gap slot)) "parked document ByteRange does not match its /Contents gap"
  ok (record {
    buffer = pending;
    byte_range = slot.byte_range;
    gap_start = slot.byte_range.before;
    hex_length = gap_length slot.byte_range.before slot.contents_end;
    signed_content = content_of slot.byte_range pending;
  })

unfoldable pub reopen_only : List ℕ → List PdfSignatureSlot → Result PreparedSignatureSlot
reopen_only pending [] = err (other_error "parked document has no unfilled signature slot")
reopen_only pending (slot ∷ []) = reopen_slot pending slot
reopen_only pending (slot ∷ _ ∷ _) =
    err (other_error "parked document has more than one unfilled signature slot")

unfoldable pub reopen_signature_slot : List ℕ → Result PreparedSignatureSlot
reopen_signature_slot pending = reopen_only pending (unfilled (find_signatures pending))

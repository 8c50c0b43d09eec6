-- ===== src/Pdf/Examples.antt =====
-- A small document, tests on it, and the theorems applied to it.
use onlineaggrement.Base.{
  ℕ, suc, ◌-◌, ◌≤◌, ◌≡◌, ◌≢◌, refl, true, List, [], ◌∷◌, Option, none, some, Text, codes, length,
  take, decimal, digits, pad_start, trim, arith,
}
use onlineaggrement.Errors.{Result, ok, err}
use onlineaggrement.Pdf.Scanning.{
  starts_with, find_at, index_of, last_at, last_index_of, includes_text, is_space, is_digit, is_hex,
  spaces, spaces1, digits_from, number, hex_digits, literal, search_first, slice,
}
use onlineaggrement.Pdf.Patterns
use onlineaggrement.Pdf.Patterns.{ByteRange}
use onlineaggrement.Pdf.Objects
use onlineaggrement.Pdf.Objects.{parse_document}
use onlineaggrement.Pdf.Objects.Termination.{parse_document-terminates}
use onlineaggrement.Pdf.Fields
use onlineaggrement.Pdf.Revisions
use onlineaggrement.Pdf.Slots
use onlineaggrement.Pdf.Slots.{
  SlotOptions, PreparedSignatureSlot, prepare_signature_slot, reopen_signature_slot,
  embed_signature, content_of,
}
use onlineaggrement.Pdf.Slots.Filled.{embed_signature-keeps}
use onlineaggrement.Pdf.Slots.ReadBack.{embed_signature-extract_der}
use onlineaggrement.Pdf.Der.{der_length, extract_der}

-- One object, a signature field, and its cross-reference table.
abbrev document : Text
document =
    codes
      "%PDF\n1 0 obj\n<< /T (Sig) /FT /Sig >>\nendobj\nxref\n0 2\n0000000000 65535 f \n0000000005 00000 n \ntrailer\n<< /Size 2 /Root 1 0 R >>\nstartxref\n44\n%%EOF\n"

-- What a test of the parser computes with.
parsing : Unit {0}
unfolding starts_with find_at index_of last_at last_index_of includes_text is_space is_digit is_hex
    spaces spaces1 digits_from number hex_digits literal search_first decimal digits pad_start trim
    Patterns.startxref_value Patterns.through_newline Patterns.subsection_header
    Patterns.exact_digits Patterns.one_space Patterns.entry_kind Patterns.xref_entry
    Patterns.prev_value Patterns.size_value Patterns.reference_at Patterns.root_value
    Patterns.signature_value Patterns.hex_string Patterns.id_value Patterns.object_header
    Patterns.byte_range_at Objects.has_key Objects.get_key Objects.set_key Objects.find_start_xref
    Objects.dict_end Objects.find_dict_end Objects.read_entries Objects.read_subsections
    Objects.read_trailer Objects.parse_section_text Objects.parse_xref_section Objects.merge_older
    Objects.walked Objects.walk_sections Objects.index_of_walk parse_document
parsing = tt

parse_document_test :
    parse_document document
    ≡ some (
        ok (record {
          offsets = (1, 5) ∷ [];
          trailer = codes "<< /Size 2 /Root 1 0 R >>";
          size = 2;
          root_num = 1;
          root_gen = 0;
        }))
unfolding parsing
parse_document_test = refl

-- A parser that is not at a table of cross-references throws.
parse_document-terminates_example : parse_document document ≢ none
parse_document-terminates_example = parse_document-terminates document

abbrev options : SlotOptions
options = record {
  field_name = codes "Sig";
  name = codes "A (B)";
  reason = codes "R";
  location = codes "L";
  signed_at = record {
    year = 2026;
    month = 4;
    day = 2;
    hours = 9;
    minutes = 5;
    seconds = 7;
    ahead = true;
    offset = 330;
  };
  reserved_bytes = some 6;
}

signing : Unit {0}
unfolding parsing Fields.read_object Fields.find_object Fields.find_field_by_name
    Fields.signature_at Fields.signatures_from Fields.find_signatures Revisions.pad10
    Revisions.escape_pdf_text Revisions.pdf_date Revisions.insert_sorted Revisions.sort_objects
    Revisions.object_text Revisions.write_objects Revisions.xref_line Revisions.xref_lines
    Revisions.id_part Revisions.trailer_text Revisions.revision_text Revisions.append_revision
    Revisions.trim_end Revisions.inject_into_dict Slots.write_at content_of Slots.signature_object
    Slots.signature_objects Slots.filled_range Slots.gap_of Slots.open_slot Slots.prepare_indexed
    prepare_signature_slot Slots.to_hex Slots.pad_end embed_signature Slots.all_zeros Slots.unfilled
    Slots.reopen_slot Slots.reopen_only reopen_signature_slot
signing = tt

pdf_date_test : Revisions.pdf_date options.signed_at ≡ codes "D:20260402090507+05'30'"
unfolding signing
pdf_date_test = refl

abbrev nothing : PreparedSignatureSlot
nothing = record {
  buffer = [];
  byte_range = record { start = 0; before = 0; resume = 0; after = 0 };
  gap_start = 0;
  hex_length = none;
  signed_content = [];
}

slot_of : Option (Result PreparedSignatureSlot) → PreparedSignatureSlot
slot_of (some (ok s)) = s
slot_of _ = nothing

parked : PreparedSignatureSlot
unfolding slot_of
parked = slot_of (prepare_signature_slot document options)

prepared_test : prepare_signature_slot document options ≡ some (ok parked)
unfolding signing parked
prepared_test = refl

reopened : PreparedSignatureSlot
unfolding slot_of
reopened = slot_of (some (reopen_signature_slot parked.buffer))

reopened_test : reopen_signature_slot parked.buffer ≡ ok reopened
unfolding signing parked reopened
reopened_test = refl

-- A signature that ends in a zero byte.
abbrev der : List ℕ
der = 0x30 ∷ 2 ∷ 1 ∷ 0 ∷ []

abbrev bytes_of : Result (List ℕ) → List ℕ
bytes_of (ok s) = s
bytes_of (err e) = []

signed : List ℕ
signed = bytes_of (embed_signature reopened der)

embedded_test : embed_signature reopened der ≡ ok signed
unfolding signing parked reopened signed
embedded_test = refl

abbrev earlier : ByteRange
earlier = record { start = 0; before = 5; resume = 9; after = 30 }

reopened_range :
    (reopened.byte_range ≡ parked.byte_range)
    × (length document ≤ reopened.gap_start)
    × (reopened.byte_range.resume ≤ length parked.buffer)
unfolding signing parked reopened
reopened_range = (refl, omega arith, omega arith)

embed_signature-keeps_example :
    (take (length document) signed ≡ document)
    × (content_of earlier signed ≡ content_of earlier document)
    × (content_of parked.byte_range signed ≡ parked.signed_content)
embed_signature-keeps_example =
    embed_signature-keeps document options parked reopened der signed earlier prepared_test
      reopened_test reopened_range.0 reopened_range.1 embedded_test (omega arith) (omega arith)

der_test : der_length der ≡ ok 4
unfolding der_length
der_test = refl

embed_signature-extract_der_example :
    extract_der (slice signed (suc reopened.byte_range.before) (reopened.byte_range.resume - 1))
    ≡ ok der
embed_signature-extract_der_example =
    embed_signature-extract_der parked.buffer reopened der signed reopened_test reopened_range.2
      embedded_test (omega arith) der_test

-- ===== src/Pdf/Slots/Appended.antt =====
-- What the two phases of a signature leave as it was
-- (api/src/documents/pdf/incremental-signer.ts).
use onlineaggrement.Base.{
  ℕ, zero, suc, ◌+◌, ◌-◌, ◌≤◌, ◌≡◌, refl, sym, ap, ◌∙◌, Bool, true, false, List, [], ◌∷◌, ◌++◌,
  Option, none, some, Text, length, take, drop, arith, not, String,
}
use onlineaggrement.Errors.{Result, ok, err}
use onlineaggrement.Pdf.Scanning.{find_at, index_of}
use onlineaggrement.Pdf.Patterns.{ByteRange, signature_value}
use onlineaggrement.Pdf.Objects
use onlineaggrement.Pdf.Objects.{
  or_error, error_if, PdfDocumentIndex, find_start_xref, parse_document,
}
use onlineaggrement.Pdf.Fields.{PdfSignatureSlot, find_field_by_name}
use onlineaggrement.Pdf.Revisions.{
  RevisionObject, sort_objects, last_num, revision_text, append_revision, inject_into_dict,
}
use onlineaggrement.Pdf.Slots.{
  SlotOptions, PreparedSignatureSlot, write_at, content_of, gap_of, open_slot, prepare_indexed,
  prepare_signature_slot, reopen_slot, reopen_only, reopen_signature_slot, then_prepare, is_some,
  gap_length, fits_gap,
}

-- A result that is there was there at the first step.
module _ {A B : Type 0} {b : B} where
  bind-inverse :
      (m : Result A) (f : A → Result B)
      → Objects.◌>>=◌ m f ≡ ok b
      → (a : A) × (m ≡ ok a) × (f a ≡ ok b)
  bind-inverse (ok a) f h = (a, refl, h)
  bind-inverse (err e) f h = cc

  pub then-inverse :
      (m : Result A) (k : Result B) → Objects.◌>>◌ m k ≡ ok b → (a : A) × (m ≡ ok a) × (k ≡ ok b)
  then-inverse (ok a) k h = (a, refl, h)
  then-inverse (err e) k h = cc

or_error-ok : {A : Type 0} (o : Option A) (m : String) {a : A} → or_error o m ≡ ok a → o ≡ some a
or_error-ok none m h = cc
or_error-ok (some a) m h = cc

pub error_if-ok : (b : Bool) (m : String) {u : Unit {0}} → error_if b m ≡ ok u → b ≡ false
error_if-ok true m h = cc
error_if-ok false m h = refl

pub ok-injective : {A : Type 0} {a b : A} → ok a ≡ ok b → a ≡ b
ok-injective h = cc

-- A search finds nothing before the place at which it begins.
find_at-le : (needle s : Text) (i j : ℕ) → find_at needle s i ≡ some j → i ≤ j
unfolding find_at
find_at-le needle [] i j h = cc
find_at-le needle (c ∷ s) i j h = ground (arith, find_at-le needle s (suc i) j)

index_of-le : (needle s : Text) (i j : ℕ) → index_of needle s i ≡ some j → i ≤ j
unfolding index_of
index_of-le needle s i j h = find_at-le needle (drop i s) i j h

pub length-write_at : (p : ℕ) (t : Text) (s : List ℕ) → length (write_at p t s) ≡ length s
unfolding write_at
length-write_at zero [] s = refl
length-write_at zero (x ∷ t) [] = refl
length-write_at zero (x ∷ t) (c ∷ s) = ap suc (length-write_at zero t s)
length-write_at (suc p) t [] = refl
length-write_at (suc p) t (c ∷ s) = ap suc (length-write_at p t s)

-- A write past the first part leaves it.
pub write_at-append :
    (xs : List ℕ) (p k : ℕ) (t : Text) (ys : List ℕ)
    → p ≡ length xs + k
    → write_at p t (xs ++ ys) ≡ xs ++ write_at k t ys
unfolding write_at
write_at-append [] p k t ys e = ap (λ p. write_at p t ys) (omega arith)
write_at-append (x ∷ xs) zero k t ys e = absurd (omega arith)
write_at-append (x ∷ xs) (suc p) k t ys e =
    ap (λ l. x ∷ l) (write_at-append xs p k t ys (omega arith))

-- A write leaves what stands before it and what stands after it.
pub take-write_at : (n p : ℕ) (t : Text) (s : List ℕ) → n ≤ p → take n (write_at p t s) ≡ take n s
unfolding write_at
take-write_at zero p t s h = refl
take-write_at (suc n) zero t s h = absurd (omega arith)
take-write_at (suc n) (suc p) t [] h = refl
take-write_at (suc n) (suc p) t (c ∷ s) h = ap (λ l. c ∷ l) (take-write_at n p t s (omega arith))

pub drop-write_at :
    (n p : ℕ) (t : Text) (s : List ℕ) → p + length t ≤ n → drop n (write_at p t s) ≡ drop n s
unfolding write_at
drop-write_at n zero [] s h = refl
drop-write_at zero zero (x ∷ t) s h = absurd (omega arith)
drop-write_at (suc n) zero (x ∷ t) [] h = refl
drop-write_at (suc n) zero (x ∷ t) (c ∷ s) h = drop-write_at n zero t s (omega arith)
drop-write_at zero (suc p) t s h = absurd (omega arith)
drop-write_at (suc n) (suc p) t [] h = refl
drop-write_at (suc n) (suc p) t (c ∷ s) h = drop-write_at n p t s (omega arith)

-- What is cut out of the first part is there whatever follows.
cut-append :
    (m n : ℕ) (xs ys : List ℕ) → m + n ≤ length xs → take n (drop m (xs ++ ys)) ≡ take n (drop m xs)
cut-append m zero xs ys h = refl
cut-append m (suc n) [] ys h = absurd (omega arith)
cut-append zero (suc n) (x ∷ xs) ys h = ap (λ l. x ∷ l) (cut-append zero n xs ys (omega arith))
cut-append (suc m) (suc n) (x ∷ xs) ys h = cut-append m (suc n) xs ys (omega arith)

pub content_of-append :
    (r : ByteRange) (xs ys : List ℕ)
    → r.start + r.before ≤ length xs
    → r.resume + r.after ≤ length xs
    → content_of r (xs ++ ys) ≡ content_of r xs
unfolding content_of
content_of-append r xs ys h k =
    rw (cut-append r.start r.before xs ys h, cut-append r.resume r.after xs ys k) refl

open_slot-extends :
    (xs ys : List ℕ) (n : ℕ) (slot : PreparedSignatureSlot)
    → open_slot (length xs) n (xs ++ ys) ≡ ok slot
    → (rest : List ℕ) × (slot.buffer ≡ xs ++ rest)
unfolding open_slot
open_slot-extends xs ys n slot h =
    let (p, e1, k1) = bind-inverse (or_error (index_of _ (xs ++ ys) (length xs)) _) _ h in
    let (r, e2, k2) = bind-inverse (gap_of (xs ++ ys) p) _ k1 in
    let (u, e3, k3) = then-inverse (error_if _ _) _ k2 in
    let ge = index_of-le _ (xs ++ ys) (length xs) p (or_error-ok _ _ e1) in
    (
      write_at (p - length xs) _ ys,
      sym (ap (λ s. s.buffer) (ok-injective k3))
          ∙ write_at-append xs p (p - length xs) _ ys (omega arith),
    )

-- The range of an open slot begins the document, and what it hands out to be signed is what the
-- range covers of the buffer that it parks.
pub record IsOpened (slot : PreparedSignatureSlot) : Type 0 where
  pub begins : slot.byte_range.start ≡ 0
  pub covers : slot.signed_content ≡ content_of slot.byte_range slot.buffer

gap_of-begins : (out : List ℕ) (p : ℕ) (r : ByteRange) → gap_of out p ≡ ok r → r.start ≡ 0
unfolding gap_of
gap_of-begins out p r h =
    let (tag, e1, k1) = bind-inverse (or_error (index_of _ out p) _) _ h in
    let (start, e2, k2) = bind-inverse (or_error (index_of _ out tag) _) _ k1 in
    let (end, e3, k3) = bind-inverse (or_error (index_of _ out start) _) _ k2 in
    sym (ap (λ r. r.start) (ok-injective k3))

open_slot-IsOpened :
    (n m : ℕ) (out : List ℕ) (slot : PreparedSignatureSlot)
    → open_slot n m out ≡ ok slot
    → IsOpened slot
unfolding open_slot
open_slot-IsOpened n m out slot h =
    let (p, e1, k1) = bind-inverse (or_error (index_of _ out n) _) _ h in
    let (r, e2, k2) = bind-inverse (gap_of out p) _ k1 in
    let (u, e3, k3) = then-inverse (error_if _ _) _ k2 in
    let same = ok-injective k3 in
    record {
      begins = sym (ap (λ s. s.byte_range.start) same) ∙ gap_of-begins out p r e2;
      covers =
          sym (ap (λ s. s.signed_content) same) ∙ ap (λ s. content_of s.byte_range s.buffer) same;
    }

append_revision-extends :
    (buf : List ℕ) (doc : PdfDocumentIndex) (objects : List RevisionObject) (out : List ℕ)
    → append_revision buf doc objects ≡ ok out
    → (ys : List ℕ) × (out ≡ buf ++ ys)
unfolding append_revision
append_revision-extends buf doc objects out h =
    let (prev, e1, k1) = bind-inverse (find_start_xref buf) _ h in
    let (last, e2, k2) =
      bind-inverse (or_error (last_num (sort_objects objects)) "TypeError") _ k1 in
    (revision_text (length buf) doc (sort_objects objects) prev last, sym (ok-injective k2))

prepare_indexed-extends :
    (buf : List ℕ) (opts : SlotOptions) (doc : PdfDocumentIndex) (slot : PreparedSignatureSlot)
    → prepare_indexed buf opts doc ≡ ok slot
    → ((rest : List ℕ) × (slot.buffer ≡ buf ++ rest)) × IsOpened slot
unfolding prepare_indexed
prepare_indexed-extends buf opts doc slot h =
    let (field, e1, k1) = bind-inverse (find_field_by_name buf doc.offsets opts.field_name) _ h in
    let (u, e2, k2) =
      then-inverse
        (error_if (is_some (signature_value field.body)) "signature field is already signed") _
        k1 in
    let (value, e3, k3) = bind-inverse (inject_into_dict field.body _) _ k2 in
    let (out, e4, k4) = bind-inverse (append_revision buf doc _) _ k3 in
    let (ys, e5) = append_revision-extends buf doc _ out e4 in
    (open_slot-extends buf ys _ slot (rw e5 at k4), open_slot-IsOpened _ _ out slot k4)

after_index-extends :
    (buf : List ℕ) (opts : SlotOptions) (slot : PreparedSignatureSlot)
    (o : Option (Result PdfDocumentIndex))
    → then_prepare buf opts o ≡ some (ok slot)
    → ((rest : List ℕ) × (slot.buffer ≡ buf ++ rest)) × IsOpened slot
after_index-extends buf opts slot none h = cc
after_index-extends buf opts slot (some (err x)) h = cc
after_index-extends buf opts slot (some (ok doc)) h = prepare_indexed-extends buf opts doc slot (cc)

-- The document with an open slot is the document, and a revision after it; and the slot is open.
pub prepare_signature_slot-extends :
    (buf : List ℕ) (opts : SlotOptions) (slot : PreparedSignatureSlot)
    → prepare_signature_slot buf opts ≡ some (ok slot)
    → ((rest : List ℕ) × (slot.buffer ≡ buf ++ rest)) × IsOpened slot
unfolding prepare_signature_slot
prepare_signature_slot-extends buf opts slot h =
    after_index-extends buf opts slot (parse_document buf) h

-- The slot that is reopened lies as its range says, and its gap ends where the range resumes.
pub record IsReopened (pending : List ℕ) (slot : PreparedSignatureSlot) : Type 0 where
  pub same_buffer : slot.buffer ≡ pending
  pub gap_starts : slot.gap_start ≡ slot.byte_range.before
  pub gap_ends : slot.hex_length ≡ gap_length slot.byte_range.before slot.byte_range.resume
  pub content : slot.signed_content ≡ content_of slot.byte_range pending

fits_gap-resume :
    (s : PdfSignatureSlot) → not (fits_gap s) ≡ false → s.byte_range.resume ≡ s.contents_end
fits_gap-resume s h = ground arith

pub gap_length-le : (a b n : ℕ) → gap_length a b ≡ some n → a + n + 2 ≤ b
gap_length-le a b n h = ground arith

reopen_slot-IsReopened :
    (pending : List ℕ) (s : PdfSignatureSlot) (slot : PreparedSignatureSlot)
    → reopen_slot pending s ≡ ok slot
    → IsReopened pending slot
unfolding reopen_slot
reopen_slot-IsReopened pending s slot h =
    let (u, e, k) = then-inverse (error_if (not (fits_gap s)) _) _ h in
    let same = ok-injective k in
    let at = fits_gap-resume s (error_if-ok (not (fits_gap s)) _ e) in
    record {
      same_buffer = sym (ap (λ x. x.buffer) same);
      gap_starts = sym (ap (λ x. x.gap_start) same) ∙ ap (λ x. x.byte_range.before) same;
      gap_ends =
          sym (ap (λ x. x.hex_length) same)
          ∙ ap (gap_length s.byte_range.before) (sym at)
          ∙ ap (λ x. gap_length x.byte_range.before x.byte_range.resume) same;
      content =
          sym (ap (λ x. x.signed_content) same) ∙ ap (λ x. content_of x.byte_range pending) same;
    }

reopen_only-IsReopened :
    (pending : List ℕ) (slots : List PdfSignatureSlot) (slot : PreparedSignatureSlot)
    → reopen_only pending slots ≡ ok slot
    → IsReopened pending slot
unfolding reopen_only
reopen_only-IsReopened pending [] slot h = cc
reopen_only-IsReopened pending (s ∷ []) slot h = reopen_slot-IsReopened pending s slot h
reopen_only-IsReopened pending (s ∷ t ∷ l) slot h = cc

pub reopen-IsReopened :
    (pending : List ℕ) (slot : PreparedSignatureSlot)
    → reopen_signature_slot pending ≡ ok slot
    → IsReopened pending slot
unfolding reopen_signature_slot
reopen-IsReopened pending slot h = reopen_only-IsReopened pending _ slot h

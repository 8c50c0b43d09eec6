-- ===== src/Pdf/Slots/ReadBack.antt =====
-- A signature that is embedded and read back: embedSignature of
-- api/src/documents/pdf/incremental-signer.ts against extractDer of verifier.ts.
use onlineaggrement.Base.{
  ℕ, zero, suc, ◌+◌, ◌-◌, ◌≤◌, ◌<◌, ◌≡◌, refl, sym, ap, ◌∙◌, List, [], ◌∷◌, some, Text, length,
  take, drop, All, arith,
}
use onlineaggrement.Errors.{ok}
use onlineaggrement.Pdf.Scanning.{slice}
use onlineaggrement.Pdf.Slots.{
  PreparedSignatureSlot, write_at, to_hex, pad_end, embed_signature, reopen_signature_slot,
  gap_length,
}
use onlineaggrement.Pdf.Slots.Appended.{reopen-IsReopened, gap_length-le}
use onlineaggrement.Pdf.Slots.Filled.{embed_signature-writes, length-pad_end}
use onlineaggrement.Pdf.Der.{der_length, extract_der}
use onlineaggrement.Pdf.Der.Extraction.{extract_der-pad_end}

-- What was written is cut out again, where there is room for it.
cut-write_at :
    (p : ℕ) (t : Text) (s : List ℕ)
    → p + length t ≤ length s
    → take (length t) (drop p (write_at p t s)) ≡ t
unfolding write_at
cut-write_at zero [] s h = refl
cut-write_at zero (x ∷ t) [] h = absurd (omega arith)
cut-write_at zero (x ∷ t) (c ∷ s) h = ap (λ l. x ∷ l) (cut-write_at zero t s (omega arith))
cut-write_at (suc p) t [] h = absurd (omega arith)
cut-write_at (suc p) t (c ∷ s) h = cut-write_at p t s (omega arith)

gap_length-eq : (a b n : ℕ) → gap_length a b ≡ some n → b - 1 - suc a ≡ n
gap_length-eq a b n h = ground arith

-- A signature that is embedded in a parked document, whose gap lies within the document, is what
-- is extracted from the gap of the signed document, if its bytes are below 256 and the length that
-- its DER header gives is its length.
pub embed_signature-extract_der :
    (pending : List ℕ) (slot : PreparedSignatureSlot) (der signed : List ℕ)
    → reopen_signature_slot pending ≡ ok slot
    → slot.byte_range.resume ≤ length pending
    → embed_signature slot der ≡ ok signed
    → All (λ b. b < 256) der
    → der_length der ≡ ok (length der)
    → extract_der (slice signed (suc slot.byte_range.before) (slot.byte_range.resume - 1)) ≡ ok der
embed_signature-extract_der pending slot der signed o within e bytes h =
    let r = reopen-IsReopened pending slot o in
    let (n, room, fit, w) = embed_signature-writes slot der signed e in
    let gap = sym r.gap_ends ∙ room in
    let width = length-pad_end (to_hex der) n fit in
    let t = pad_end (to_hex der) n in
    let cut =
      ap (λ k. take k (drop (suc slot.byte_range.before) signed))
        (gap_length-eq slot.byte_range.before slot.byte_range.resume n gap)
      ∙ ap (λ d. take n (drop (suc slot.byte_range.before) d)) w
      ∙ ap (λ g. take n (drop (suc g) (write_at (suc slot.gap_start) t slot.buffer)))
          (sym r.gap_starts)
      ∙ ap (λ k. take k (drop (suc slot.gap_start) (write_at (suc slot.gap_start) t slot.buffer)))
          (sym width)
      ∙ cut-write_at (suc slot.gap_start) t slot.buffer (
          omega (
            arith,
            width,
            r.gap_starts,
            ap length r.same_buffer,
            gap_length-le slot.byte_range.before slot.byte_range.resume n gap,
          )) in
    ap extract_der cut ∙ extract_der-pad_end der n bytes h

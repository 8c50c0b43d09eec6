-- ===== src/Pdf/Slots/Filled.antt =====
-- A signature that is written into its gap (embedSignature of
-- api/src/documents/pdf/incremental-signer.ts) disturbs nothing that is signed.
use onlineaggrement.Base.{
  ℕ, zero, suc, ◌+◌, ◌-◌, ◌≤◌, ◌≡◌, refl, sym, ap, ◌∙◌, true, false, List, [], ◌∷◌, ◌++◌, Option,
  none, some, Text, length, take, drop, zeros, leb, length-append, arith, not,
}
use onlineaggrement.Errors.{ok}
use onlineaggrement.Pdf.Patterns.{ByteRange}
use onlineaggrement.Pdf.Objects.{error_if}
use onlineaggrement.Pdf.Slots.{
  SlotOptions, PreparedSignatureSlot, write_at, content_of, prepare_signature_slot, to_hex, pad_end,
  embed_signature, reopen_signature_slot, fits, room_of,
}
use onlineaggrement.Pdf.Slots.Appended.{
  then-inverse, error_if-ok, ok-injective, length-write_at, take-write_at, drop-write_at,
  content_of-append, prepare_signature_slot-extends, IsReopened, gap_length-le, reopen-IsReopened,
}

length-zeros : (n : ℕ) → length (zeros n) ≡ n
length-zeros zero = refl
length-zeros (suc n) = ap suc (length-zeros n)

pub length-pad_end : (s : Text) (n : ℕ) → length s ≤ n → length (pad_end s n) ≡ n
unfolding pad_end
length-pad_end s n h =
    omega (arith, length-append s (zeros (n - length s)), length-zeros (n - length s))

-- The signature fits, and is written after the beginning of the gap.
pub embed_signature-writes :
    (slot : PreparedSignatureSlot) (der signed : List ℕ)
    → embed_signature slot der ≡ ok signed
    → (n : ℕ) × (slot.hex_length ≡ some n)
      × (length (to_hex der) ≤ n)
      × (signed ≡ write_at (suc slot.gap_start) (pad_end (to_hex der) n) slot.buffer)
unfolding embed_signature
embed_signature-writes slot der signed h =
    let (u, e, k) =
      then-inverse
        (error_if (not (fits (length (to_hex der)) slot.hex_length)) "signature does not fit") _
        h in
    go slot.hex_length refl (error_if-ok _ _ e) (ok-injective k)
  where
    go :
        (o : Option ℕ)
        → slot.hex_length ≡ o
        → not (fits (length (to_hex der)) slot.hex_length) ≡ false
        → write_at (suc slot.gap_start) (pad_end (to_hex der) (room_of slot.hex_length)) slot.buffer
          ≡ signed
        → (n : ℕ) × (slot.hex_length ≡ some n)
          × (length (to_hex der) ≤ n)
          × (signed ≡ write_at (suc slot.gap_start) (pad_end (to_hex der) n) slot.buffer)
    go none p f w = absurd (unfit (rw p at f))
      where
        unfit : true ≡ false → ⊥
        unfit x = cc
    go (some n) p f w = (n, p, fit (rw p at f), sym (rw p at w))
      where
        fit : not (leb (length (to_hex der)) n) ≡ false → length (to_hex der) ≤ n
        fit x = ground arith

-- The bytes before the gap and after it are as they were.
module _ {pending : List ℕ} {slot : PreparedSignatureSlot} (r : IsReopened pending slot) where
  pub embed_signature-outside :
      (der signed : List ℕ)
      → embed_signature slot der ≡ ok signed
      → (length signed ≡ length pending)
        × (take (suc slot.byte_range.before) signed ≡ take (suc slot.byte_range.before) pending)
        × (drop slot.byte_range.resume signed ≡ drop slot.byte_range.resume pending)
  embed_signature-outside der signed h =
      let (n, e, fit, w) = embed_signature-writes slot der signed h in
      let room =
        gap_length-le slot.byte_range.before slot.byte_range.resume n (sym r.gap_ends ∙ e) in
      let t = pad_end (to_hex der) n in
      let starts = r.gap_starts in
      (
        ap length w ∙ length-write_at (suc slot.gap_start) t slot.buffer ∙ ap length r.same_buffer,
        ap (take (suc slot.byte_range.before)) w
            ∙ take-write_at (suc slot.byte_range.before) (suc slot.gap_start) t slot.buffer
                (omega arith)
            ∙ ap (take (suc slot.byte_range.before)) r.same_buffer,
        ap (drop slot.byte_range.resume) w
            ∙ drop-write_at slot.byte_range.resume (suc slot.gap_start) t slot.buffer
                (omega (arith, length-pad_end (to_hex der) n fit))
            ∙ ap (drop slot.byte_range.resume) r.same_buffer,
      )

cons-injective : {a b : ℕ} {s t : List ℕ} → a ∷ s ≡ b ∷ t → (a ≡ b) × (s ≡ t)
cons-injective h = (cc, cc)

take-within : (n m : ℕ) (s t : List ℕ) → n ≤ m → take m s ≡ take m t → take n s ≡ take n t
take-within zero m s t h e = refl
take-within (suc n) zero s t h e = absurd (omega arith)
take-within (suc n) (suc m) [] [] h e = refl
take-within (suc n) (suc m) [] (b ∷ t) h e = cc
take-within (suc n) (suc m) (a ∷ s) [] h e = cc
take-within (suc n) (suc m) (a ∷ s) (b ∷ t) h e =
    let (same, rest) = cons-injective e in
    rw same (ap (λ l. b ∷ l) (take-within n m s t (omega arith) rest))

content_of-outside :
    (r : ByteRange) (s t : List ℕ)
    → r.start ≡ 0
    → take (suc r.before) s ≡ take (suc r.before) t
    → drop r.resume s ≡ drop r.resume t
    → content_of r s ≡ content_of r t
unfolding content_of
content_of-outside r s t e h k =
    rw (e, k)
      (ap (λ l. l ++ take r.after (drop r.resume t))
        (take-within r.before (suc r.before) s t (omega arith) h))

take-split : (n : ℕ) (s : List ℕ) → s ≡ take n s ++ drop n s
take-split zero s = refl
take-split (suc n) [] = refl
take-split (suc n) (c ∷ s) = ap (λ l. c ∷ l) (take-split n s)

take-append_self : (xs ys : List ℕ) → take (length xs) (xs ++ ys) ≡ xs
take-append_self [] ys = refl
take-append_self (x ∷ xs) ys = ap (λ l. x ∷ l) (take-append_self xs ys)

-- A signature that is prepared on a document, parked, reopened and filled, where the reopened slot
-- has the range of the prepared one and its gap lies past the document, leaves the bytes of the
-- document, so that a range within it has the content that it had; and what the range of the
-- prepared slot covers of the signed document is what prepareSignatureSlot handed out to be signed.
pub embed_signature-keeps :
    (buf : List ℕ) (opts : SlotOptions) (parked slot : PreparedSignatureSlot) (der signed : List ℕ)
    (r : ByteRange)
    → prepare_signature_slot buf opts ≡ some (ok parked)
    → reopen_signature_slot parked.buffer ≡ ok slot
    → slot.byte_range ≡ parked.byte_range
    → length buf ≤ slot.gap_start
    → embed_signature slot der ≡ ok signed
    → r.start + r.before ≤ length buf
    → r.resume + r.after ≤ length buf
    → (take (length buf) signed ≡ buf)
      × (content_of r signed ≡ content_of r buf)
      × (content_of parked.byte_range signed ≡ parked.signed_content)
embed_signature-keeps buf opts parked slot der signed r p o agree past e h k =
    let ((rest, grown), prepared) = prepare_signature_slot-extends buf opts parked p in
    let opened = reopen-IsReopened parked.buffer slot o in
    let (same, before, after) = embed_signature-outside opened der signed e in
    let starts = opened.gap_starts in
    let head =
      take-within (length buf) (suc slot.byte_range.before) signed parked.buffer (omega arith)
        before
      ∙ ap (take (length buf)) grown
      ∙ take-append_self buf rest in
    (
      head,
      ap (content_of r)
            (take-split (length buf) signed ∙ ap (λ l. l ++ drop (length buf) signed) head)
          ∙ content_of-append r buf (drop (length buf) signed) h k,
      ap (λ q. content_of q signed) (sym agree)
          ∙ content_of-outside slot.byte_range signed parked.buffer
              (ap (λ q. q.start) agree ∙ prepared.begins) before after
          ∙ ap (λ q. content_of q parked.buffer) agree
          ∙ sym prepared.covers,
    )

-- ===== src/Pdf/Der/Extraction.antt =====
-- What is written into a gap is read back out of it: embedSignature of
-- api/src/documents/pdf/incremental-signer.ts against extractDer of verifier.ts.
use onlineaggrement.Base.{
  ℕ, zero, suc, ◌+◌, ◌-◌, ◌*◌, ◌/◌, ◌%◌, ◌≤◌, ◌<◌, ◌≡◌, refl, ap, true, List, [], ◌∷◌, ◌++◌, Text,
  length, take, zeros, nat_eq, All, Bool-cases, inl, inr, arith, length-append,
}
use mathlib.Core.List.{append_assoc}
use onlineaggrement.Errors.{ok}
use onlineaggrement.Pdf.Scanning.{is_hex}
use onlineaggrement.Pdf.Slots.{to_hex, pad_end, hex_digit}
use onlineaggrement.Pdf.Der.{
  clean_hex, hex_value, from_hex, even_hex, big_endian, long_length, der_length, cut_der,
  extract_der,
}

hex_digit-is_hex : (n : ℕ) → n < 16 → is_hex (hex_digit n) ≡ true
unfolding is_hex
hex_digit-is_hex n h = ground arith

hex_value-hex_digit : (n : ℕ) → n < 16 → hex_value (hex_digit n) ≡ n
unfolding hex_value
hex_value-hex_digit n h = ground arith

clean_hex-zeros : (n : ℕ) → clean_hex (zeros n) ≡ zeros n
unfolding clean_hex is_hex
clean_hex-zeros zero = refl
clean_hex-zeros (suc n) = ap (λ s. b'0' ∷ s) (clean_hex-zeros n)

clean_hex-to_hex :
    (der : List ℕ) (s : Text)
    → All (λ b. b < 256) der
    → clean_hex (to_hex der ++ s) ≡ to_hex der ++ clean_hex s
unfolding clean_hex to_hex
clean_hex-to_hex [] s h = refl
clean_hex-to_hex (b ∷ der) s (h, hs) =
    rw (hex_digit-is_hex (b / 16) (omega arith), hex_digit-is_hex (b % 16) (omega arith))
      (ap (λ t. hex_digit (b / 16) ∷ hex_digit (b % 16) ∷ t) (clean_hex-to_hex der s hs))

from_hex-to_hex :
    (der : List ℕ) (s : Text)
    → All (λ b. b < 256) der
    → from_hex (to_hex der ++ s) ≡ der ++ from_hex s
unfolding from_hex to_hex
from_hex-to_hex [] s h = refl
from_hex-to_hex (b ∷ der) s (h, hs) =
    rw (hex_value-hex_digit (b / 16) (omega arith), hex_value-hex_digit (b % 16) (omega arith))
      (two (omega arith) (from_hex-to_hex der s hs))
  where
    two : {a c : ℕ} {t u : List ℕ} → a ≡ c → t ≡ u → a ∷ t ≡ c ∷ u
    two e k = cc

-- A last zero may be added: what stands before it is the same.
even_hex-append : (s t : Text) → (u : Text) × (even_hex (s ++ t) ≡ s ++ u)
unfolding even_hex
even_hex-append s t = elim (Bool-cases (nat_eq (length (s ++ t) % 2) 0)) [
  | inl even ↦ (t, rw even refl)
  | inr odd ↦ (t ++ b'0' ∷ [], rw odd (append_assoc s t (b'0' ∷ [])))
]

-- The length in the header is read from bytes that are there.
big_endian-append :
    (n : ℕ) (s t : List ℕ) (value : ℕ)
    → n ≤ length s
    → big_endian n (s ++ t) value ≡ big_endian n s value
unfolding big_endian
big_endian-append zero s t value h = refl
big_endian-append (suc n) [] t value h = absurd (omega arith)
big_endian-append (suc n) (b ∷ s) t value h =
    big_endian-append n s t (value * 256 + b) (omega arith)

long_length-append :
    (n : ℕ) (s t : List ℕ) (total : ℕ)
    → long_length n s ≡ ok total
    → long_length n (s ++ t) ≡ ok total
unfolding long_length
long_length-append n s t total h = ground (arith, big_endian-append n s t 0, length-append s t)

der_length-append :
    (s t : List ℕ) (total : ℕ) → der_length s ≡ ok total → der_length (s ++ t) ≡ ok total
unfolding der_length
der_length-append [] t total h = cc
der_length-append (a ∷ []) t total h = cc
der_length-append (a ∷ b ∷ s) t total h = ground (arith, long_length-append (b % 128) s t total)

take-append_self : (xs ys : List ℕ) → take (length xs) (xs ++ ys) ≡ xs
take-append_self [] ys = refl
take-append_self (x ∷ xs) ys = ap (λ l. x ∷ l) (take-append_self xs ys)

cut_der-append : (der t : List ℕ) → der_length der ≡ ok (length der) → cut_der (der ++ t) ≡ ok der
unfolding cut_der
cut_der-append der t h =
    rw (der_length-append der t (length der) h)
      (ground (arith, take-append_self der t, length-append der t))

-- A signature whose header gives its length is read back from its digits, whatever zeros follow
-- them.
pub extract_der-pad_end :
    (der : List ℕ) (n : ℕ)
    → All (λ b. b < 256) der
    → der_length der ≡ ok (length der)
    → extract_der (pad_end (to_hex der) n) ≡ ok der
unfolding extract_der pad_end
extract_der-pad_end der n bytes h =
    let z = zeros (n - length (to_hex der)) in
    let (u, e) = even_hex-append (to_hex der) z in
    rw
      (
        clean_hex-to_hex der z bytes,
        clean_hex-zeros (n - length (to_hex der)),
        e,
        from_hex-to_hex der u bytes,
      )
      (cut_der-append der (from_hex u) h)

-- ===== src/Pdf/Der.antt =====
-- The signature in its zero-padded gap (extractDer of api/src/documents/pdf/verifier.ts).
pub mod Extraction
use onlineaggrement.Base.{
  ℕ, zero, suc, ◌+◌, ◌-◌, ◌*◌, ◌%◌, ◌||◌, List, [], ◌∷◌, ◌++◌, Text, length, take, ltb, leb, nat_eq,
  if◌then◌else◌,
}
use onlineaggrement.Errors.{Result, ok, err, other_error}
use onlineaggrement.Pdf.Scanning.{is_hex}
use onlineaggrement.Pdf.Objects.{◌>>=◌, ◌>>◌, error_if}

-- `hex.replace(/[^0-9A-Fa-f]/g, '')`
unfoldable pub clean_hex : Text → Text
clean_hex [] = []
clean_hex (c ∷ s) = if is_hex c then c ∷ clean_hex s else clean_hex s

unfoldable pub hex_value : ℕ → ℕ
hex_value c = if leb c b'9' then c - 48 else if leb c b'F' then c - 55 else c - 87

-- `Buffer.from(hex, 'hex')`
unfoldable pub from_hex : Text → List ℕ
from_hex [] = []
from_hex (a ∷ []) = []
from_hex (a ∷ b ∷ s) = (hex_value a * 16 + hex_value b) ∷ from_hex s

unfoldable pub even_hex : Text → Text
even_hex s = if nat_eq (length s % 2) 0 then s else s ++ b'0' ∷ []

-- The first `n` bytes as one number.
unfoldable pub big_endian : ℕ → List ℕ → ℕ → ℕ
big_endian zero s value = value
big_endian (suc n) [] value = value
big_endian (suc n) (b ∷ s) value = big_endian n s (value * 256 + b)

unfoldable pub long_length : ℕ → List ℕ → Result ℕ
long_length n s =
    if nat_eq n 0 || ltb 4 n || ltb (length s) n
    then err (other_error "signature contents have a malformed DER length")
    else ok (2 + n + big_endian n s 0)

-- The length of a DER structure, by its header: the bit 0x80 says that the next bytes hold it.
unfoldable pub der_length : List ℕ → Result ℕ
der_length [] = err (other_error "signature contents are not a DER SEQUENCE")
der_length (tag ∷ []) = err (other_error "signature contents are not a DER SEQUENCE")
der_length (tag ∷ length_byte ∷ s) =
    if nat_eq tag 0x30
    then if ltb length_byte 0x80 then ok (2 + length_byte) else long_length (length_byte % 0x80) s
    else err (other_error "signature contents are not a DER SEQUENCE")

unfoldable pub cut_der : List ℕ → Result (List ℕ)
cut_der buf = do
  total ← der_length buf
  error_if (ltb (length buf) total) "signature is truncated within its reserved gap"
  ok (take total buf)

unfoldable pub extract_der : Text → Result (List ℕ)
extract_der hex = cut_der (from_hex (even_hex (clean_hex hex)))

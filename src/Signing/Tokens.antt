-- ===== src/Signing/Tokens.antt =====
-- The public verification token (generateVerificationToken of api/src/common/util/crypto.util.ts).
use onlineaggrement.Base.{
  ℕ, zero, suc, ◌%◌, ◌<◌, ◌≡◌, refl, ap, true, List, [], ◌∷◌, ◌++◌, Option, none, some, Text,
  length, get_elem?, includes, All, ℕ_eq, arith,
}

abbrev pub verification_token_length : ℕ
verification_token_length = 32

-- The letters without I, L, O and U, and the digits.
abbrev pub alphabet : Text
alphabet =
    b'A' ∷ b'B' ∷ b'C' ∷ b'D' ∷ b'E' ∷ b'F' ∷ b'G' ∷ b'H' ∷ b'J' ∷ b'K' ∷ b'M' ∷ b'N' ∷ b'P' ∷ b'Q'
    ∷ b'R' ∷ b'S' ∷ b'T' ∷ b'V' ∷ b'W' ∷ b'X' ∷ b'Y' ∷ b'Z' ∷ b'0' ∷ b'1' ∷ b'2' ∷ b'3' ∷ b'4'
    ∷ b'5' ∷ b'6' ∷ b'7' ∷ b'8' ∷ b'9' ∷ []

-- `s[i]`, and the text of what is not there.
abbrev char_at : Option ℕ → Text
char_at none = b'u' ∷ b'n' ∷ b'd' ∷ b'e' ∷ b'f' ∷ b'i' ∷ b'n' ∷ b'e' ∷ b'd' ∷ []
char_at (some c) = c ∷ []

unfoldable pub generate_verification_token : List ℕ → Text
generate_verification_token [] = []
generate_verification_token (b ∷ bytes) =
    char_at (get_elem? alphabet (b % length alphabet)) ++ generate_verification_token bytes

get_elem?-includes :
    (l : List ℕ) (i : ℕ) → i < length l → (c : ℕ) × (get_elem? l i ≡ some c) × (includes l c ≡ true)
get_elem?-includes [] i h = absurd (omega arith)
get_elem?-includes (x ∷ l) zero h = (x, refl, ground arith)
get_elem?-includes (x ∷ l) (suc i) h =
    let (c, e, k) = get_elem?-includes l i (omega arith) in (c, e, ground arith)

-- A token has one character for each random byte, each a letter or a digit of the alphabet.
pub generate_verification_token-length :
    (bytes : List ℕ)
    → (length (generate_verification_token bytes) ≡ length bytes)
      × All (λ c. includes alphabet c ≡ true) (generate_verification_token bytes)
unfolding generate_verification_token
generate_verification_token-length [] = (refl, tt)
generate_verification_token-length (b ∷ bytes) =
    let (c, e, k) = get_elem?-includes alphabet (b % 32) (omega arith) in
    let (rest, all) = generate_verification_token-length bytes in rw e (ap suc rest, (k, all))

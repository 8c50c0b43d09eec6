-- ===== src/Users/Passwords.antt =====
-- Passwords (generatePassword of api/src/users/users.service.ts and hashPassword of
-- api/src/auth/auth.service.ts). The hashing is bcrypt's, and the bytes are random.
use onlineaggrement.Base.{
  ℕ, ◌%◌, Bool, List, [], ◌∷◌, ◌++◌, Option, none, some, Text, codes, length, get_elem?, take, ltb,
}
use onlineaggrement.Errors.{validation}
use onlineaggrement.Service.{M, ◌>>=◌, ◌>>◌, return, throw_if, fresh_id}

-- The n-th drawing of random bytes, and the hash of a password with the n-th salt.
pub record Hashing : Type 0 where
  pub random_bytes : ℕ → List ℕ
  pub hash : ℕ → Text → Text
  pub compare : Text → Text → Bool

abbrev pub password_alphabet : Text
password_alphabet = codes "ABCDEFGHJKMNPQRSTUVWXYZabcdefghjkmnpqrstuvwxyz23456789"

abbrev char_of : Option ℕ → Text
char_of none = codes "undefined"
char_of (some c) = c ∷ []

unfoldable pub pick : List ℕ → Text
pick [] = []
pick (b ∷ bytes) =
    char_of (get_elem? password_alphabet (b % length password_alphabet)) ++ pick bytes

module _ (hashing : Hashing) where
  unfoldable pub random_group : M Text
  random_group = fresh_id >>= λ n. return (pick (take 5 (hashing.random_bytes n)))

  unfoldable pub generate_password : M Text
  generate_password = do
    a ← random_group
    b ← random_group
    c ← random_group
    return (a ++ (codes "-" ++ (b ++ (codes "-" ++ c))))

  unfoldable pub hash_password : Text → M Text
  hash_password plain = do
    throw_if (ltb (length plain) 12) validation
    n ← fresh_id
    return (hashing.hash n plain)

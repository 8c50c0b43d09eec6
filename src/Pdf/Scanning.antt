-- ===== src/Pdf/Scanning.antt =====
-- The searches in a text that the PDF code makes: indexOf, lastIndexOf, slice, and what its
-- regular expressions are made of.
use onlineaggrement.Base.{
  ℕ, suc, ◌+◌, ◌-◌, ◌*◌, Bool, true, false, ◌&&◌, ◌||◌, [], ◌∷◌, Option, none, some, Text, leb,
  nat_eq, if◌then◌else◌, codes, take, drop, length, String,
}

unfoldable pub starts_with : Text → Text → Bool
starts_with [] s = true
starts_with (c ∷ t) [] = false
starts_with (c ∷ t) (d ∷ s) = nat_eq c d && starts_with t s

-- The first place at which a text reads so, counted from `i`.
unfoldable pub find_at : Text → Text → ℕ → Option ℕ
find_at needle [] i = none
find_at needle (c ∷ s) i =
    let later = find_at needle s (suc i) in if starts_with needle (c ∷ s) then some i else later

-- `s.indexOf(needle, from)`, for a needle that is not empty.
unfoldable pub index_of : Text → Text → ℕ → Option ℕ
index_of needle s start = find_at needle (drop start s) start

-- `s.lastIndexOf(needle)`.
unfoldable pub last_at : Text → Text → ℕ → Option ℕ
last_at needle [] i = none
last_at needle (c ∷ s) i = elim (last_at needle s (suc i)) [
  | some j ↦ some j
  | none ↦ if starts_with needle (c ∷ s) then some i else none
]

unfoldable pub last_index_of : Text → Text → Option ℕ
last_index_of needle s = last_at needle s 0

unfoldable pub includes_text : Text → Text → Bool
includes_text needle s = elim (index_of needle s 0) [ none ↦ false | some i ↦ true ]

-- `s.slice(start, end)`, for places that are not negative.
abbrev pub slice : Text → ℕ → ℕ → Text
slice s start end = take (end - start) (drop start s)

-- `\s`, `\d` and `[0-9A-Fa-f]`, on bytes.
unfoldable pub is_space : ℕ → Bool
is_space c = leb 9 c && leb c 13 || nat_eq c 32 || nat_eq c 0xa0

unfoldable pub is_digit : ℕ → Bool
is_digit c = leb b'0' c && leb c b'9'

unfoldable pub is_hex : ℕ → Bool
unfolding is_digit
is_hex c = is_digit c || leb b'A' c && leb c b'F' || leb b'a' c && leb c b'f'

-- `\s*`, and `\s+`, which is `none` where there is none.
unfoldable pub spaces : Text → Text
spaces [] = []
spaces (c ∷ s) = let rest = spaces s in if is_space c then rest else c ∷ s

unfoldable pub spaces1 : Text → Option Text
spaces1 [] = none
spaces1 (c ∷ s) = if is_space c then some (spaces s) else none

-- `(\d+)` with `parseInt`: the number, and what follows it.
unfoldable pub digits_from : ℕ → Text → ℕ × Text
digits_from n [] = (n, [])
digits_from n (c ∷ s) =
    let rest = digits_from (n * 10 + (c - b'0')) s in if is_digit c then rest else (n, c ∷ s)

unfoldable pub number : Text → Option (ℕ × Text)
number [] = none
number (c ∷ s) = if is_digit c then some (digits_from 0 (c ∷ s)) else none

-- `[0-9A-Fa-f]*`
unfoldable pub hex_digits : Text → Text × Text
hex_digits [] = ([], [])
hex_digits (c ∷ s) =
    let (found, rest) = hex_digits s in if is_hex c then (c ∷ found, rest) else ([], c ∷ s)

-- A literal at the head of the text, and what follows it.
unfoldable pub literal : String → Text → Option Text
literal word s = if starts_with (codes word) s then some (drop (length (codes word)) s) else none

-- `exec` without an anchor: the leftmost place at which the expression matches.
unfoldable pub search_first : {A : Type 0} → (Text → Option A) → Text → Option A
search_first match [] = match []
search_first match (c ∷ s) = elim (match (c ∷ s)) [ some a ↦ some a | none ↦ search_first match s ]

-- The monad of partial results.
infixl 5 ◌>>=◌
abbrev pub ◌>>=◌ : {A B : Type 0} → Option A → (A → Option B) → Option B
none >>= f = none
some a >>= f = f a

-- ===== src/Pdf/Patterns.antt =====
-- The regular expressions of api/src/documents/pdf/pdf-objects.ts and incremental-signer.ts. The
-- classes that follow one another in them are disjoint, so that no expression has to try again.
use onlineaggrement.Base.{
  ℕ, zero, suc, ◌*◌, ◌+◌, ◌-◌, Bool, true, false, ◌||◌, [], ◌∷◌, Option, none, some, Text, nat_eq,
  decimal, if◌then◌else◌, drop, length,
}
use onlineaggrement.Pdf.Scanning.{
  starts_with, spaces, spaces1, number, hex_digits, literal, is_space, is_digit, search_first,
  ◌>>=◌,
}

-- `/startxref\s+(\d+)/`
unfoldable pub startxref_value : Text → Option ℕ
startxref_value =
    search_first
      λ s. do after ← literal "startxref" s; gap ← spaces1 after; (n, rest) ← number gap; some n

-- `\s*[\r\n]+`: through the last line end of the white space.
unfoldable pub through_newline : Text → Option Text
through_newline [] = none
through_newline (c ∷ s) =
    let last : Option Text = elim (through_newline s) [
      | some rest ↦ some rest
      | none ↦ if nat_eq c 10 || nat_eq c 13 then some s else none
    ] in
    if is_space c then last else none

pub record Header : Type 0 where
  pub start : ℕ
  pub count : ℕ
  pub rest : Text

-- `/^\s*(\d+)\s+(\d+)\s*[\r\n]+/`
unfoldable pub subsection_header : Text → Option Header
subsection_header s = do
  (start, after_start) ← number (spaces s)
  gap ← spaces1 after_start
  (count, after_count) ← number gap
  rest ← through_newline after_count
  some (record { start = start; count = count; rest = rest })

-- `(\d{n})`
unfoldable pub exact_digits : ℕ → ℕ → Text → Option (ℕ × Text)
exact_digits zero n s = some (n, s)
exact_digits (suc k) n [] = none
exact_digits (suc k) n (c ∷ s) =
    let rest = exact_digits k (n * 10 + (c - b'0')) s in if is_digit c then rest else none

-- `\s`
unfoldable pub one_space : Text → Option Text
one_space [] = none
one_space (c ∷ s) = if is_space c then some s else none

-- `([nf])`: whether it is `n`.
unfoldable pub entry_kind : Text → Option Bool
entry_kind [] = none
entry_kind (c ∷ s) = if nat_eq c b'n' then some true else if nat_eq c b'f' then some false else none

-- `/^(\d{10})\s(\d{5})\s([nf])/`
unfoldable pub xref_entry : Text → Option (ℕ × Bool)
xref_entry s = do
  (offset, after_offset) ← exact_digits 10 0 s
  gap ← one_space after_offset
  (gen, after_gen) ← exact_digits 5 0 gap
  tail ← one_space after_gen
  in_use ← entry_kind tail
  some (offset, in_use)

-- `/\/Prev\s+(\d+)/` and `/\/Size\s+(\d+)/`
unfoldable pub prev_value : Text → Option ℕ
prev_value =
    search_first
      λ s. do after ← literal "/Prev" s; gap ← spaces1 after; (n, rest) ← number gap; some n

unfoldable pub size_value : Text → Option ℕ
size_value =
    search_first
      λ s. do after ← literal "/Size" s; gap ← spaces1 after; (n, rest) ← number gap; some n

-- `\s+(\d+)\s+(\d+)\s+R`
unfoldable pub reference_at : Text → Option (ℕ × ℕ)
reference_at s = do
  gap ← spaces1 s
  (num, after_num) ← number gap
  gap' ← spaces1 after_num
  (gen, after_gen) ← number gap'
  gap'' ← spaces1 after_gen
  rest ← literal "R" gap''
  some (num, gen)

-- `/\/Root\s+(\d+)\s+(\d+)\s+R/` and `/\/V\s+\d+\s+\d+\s+R/`
unfoldable pub root_value : Text → Option (ℕ × ℕ)
root_value = search_first λ s. do after ← literal "/Root" s; reference_at after

unfoldable pub signature_value : Text → Option (ℕ × ℕ)
signature_value = search_first λ s. do after ← literal "/V" s; reference_at after

-- `<([0-9A-Fa-f]*)>`
unfoldable pub hex_string : Text → Option (Text × Text)
hex_string s = do
  after ← literal "<" s
  let (found, tail) = hex_digits after
  rest ← literal ">" tail
  some (found, rest)

-- `/\/ID\s*\[\s*<([0-9A-Fa-f]*)>\s*<([0-9A-Fa-f]*)>\s*\]/`
unfoldable pub id_value : Text → Option (Text × Text)
id_value = search_first λ s. do
  after ← literal "/ID" s
  bracket ← literal "[" (spaces after)
  (first, after_first) ← hex_string (spaces bracket)
  (second, after_second) ← hex_string (spaces after_first)
  rest ← literal "]" (spaces after_second)
  some (first, second)

-- `^${num}\s+(\d+)\s+obj`: the generation, and what follows.
unfoldable pub object_header : ℕ → Text → Option (ℕ × Text)
object_header num s = do
  after ← if starts_with (decimal num) s then some (drop (length (decimal num)) s) else none
  gap ← spaces1 after
  (gen, after_gen) ← number gap
  gap' ← spaces1 after_gen
  rest ← literal "obj" gap'
  some (gen, rest)

pub record ByteRange : Type 0 where
  pub start : ℕ
  pub before : ℕ
  pub resume : ℕ
  pub after : ℕ

-- `/\/ByteRange\s*\[\s*(\d+)\s+(\d+)\s+(\d+)\s+(\d+)\s*\]/`, at the head of the text.
unfoldable pub byte_range_at : Text → Option ByteRange
byte_range_at s = do
  tag ← literal "/ByteRange" s
  bracket ← literal "[" (spaces tag)
  (a, after_a) ← number (spaces bracket)
  gap ← spaces1 after_a
  (b, after_b) ← number gap
  gap' ← spaces1 after_b
  (c, after_c) ← number gap'
  gap'' ← spaces1 after_c
  (d, after_d) ← number gap''
  rest ← literal "]" (spaces after_d)
  some (record { start = a; before = b; resume = c; after = d })

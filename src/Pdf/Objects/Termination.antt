-- ===== src/Pdf/Objects/Termination.antt =====
-- The loops of the parser end: each subsection uses up its header, and no two sections of a chain
-- begin at one place (parseXrefSection and parseDocument of api/src/documents/pdf/pdf-objects.ts).
use onlineaggrement.Base.{
  ℕ, zero, suc, ◌+◌, ◌*◌, ◌-◌, ◌≤◌, ◌<◌, ◌≡◌, ◌≢◌, inl, inr, refl, false, List, [], ◌∷◌, Option,
  none, some, Text, length, take, drop, includes, nat_eq, ℕ_eq, if◌then◌else◌, Bool-cases,
  Option-cases, arith, codes, dec_lt,
}
use onlineaggrement.Errors.{DomainError, other_error, Result, ok, err}
use onlineaggrement.Pdf.Scanning.{
  is_space, is_digit, spaces, spaces1, digits_from, number, starts_with,
}
use onlineaggrement.Pdf.Scanning
use onlineaggrement.Pdf.Patterns.{through_newline, Header, subsection_header, xref_entry}
use onlineaggrement.Pdf.Objects.{
  Entries, with_entry, read_entries, read_subsections, then_trailer, XrefSection,
  parse_section_text, window, parse_xref_section, Walk, walked, walk_sections, then_index,
  then_walk, no_sections, parse_document, find_start_xref,
}

spaces-le : (s : Text) → length (spaces s) ≤ length s
unfolding spaces
spaces-le [] = omega arith
spaces-le (c ∷ s) = ground (arith, spaces-le s)

spaces1-le : (s t : Text) → spaces1 s ≡ some t → length t ≤ length s
unfolding spaces1
spaces1-le [] t h = cc
spaces1-le (c ∷ s) t h = ground (arith, spaces-le s)

digits_from-le : (n : ℕ) (s : Text) → length (digits_from n s).1 ≤ length s
unfolding digits_from
digits_from-le n [] = omega arith
digits_from-le n (c ∷ s) = ground (arith, digits_from-le (n * 10 + (c - b'0')) s)

number-le : (s : Text) (n : ℕ) (t : Text) → number s ≡ some (n, t) → length t ≤ length s
unfolding number
number-le [] n t h = cc
number-le (c ∷ s) n t h = ground (arith, digits_from-le 0 (c ∷ s))

through_newline-lt : (s t : Text) → through_newline s ≡ some t → length t < length s
unfolding through_newline
through_newline-lt [] t h = cc
through_newline-lt (c ∷ s) t h = ground (arith, through_newline-lt s t)

bind-inverse :
    {A B : Type 0} (m : Option A) (f : A → Option B) {b : B}
    → Scanning.◌>>=◌ m f ≡ some b
    → (a : A) × (m ≡ some a) × (f a ≡ some b)
bind-inverse none f h = cc
bind-inverse (some a) f h = (a, refl, h)

header-lt : (s : Text) (h : Header) → subsection_header s ≡ some h → length h.rest < length s
unfolding subsection_header
header-lt s h e =
    let ((n, t), e1, k1) = bind-inverse (number (spaces s)) _ e in
    let (u, e2, k2) = bind-inverse (spaces1 t) _ k1 in
    let ((m, v), e3, k3) = bind-inverse (number u) _ k2 in
    let (x, e4, k4) = bind-inverse (through_newline v) _ k3 in
    ground (
      arith,
      spaces-le s,
      number-le (spaces s) n t e1,
      spaces1-le t u e2,
      number-le u m v e3,
      through_newline-lt v x e4,
    )

err-ne-ok : {A : Type 0} {x : DomainError} {a : A} → err x ≡ ok a → ⊥
err-ne-ok h = cc

drop-le : (n : ℕ) (s : Text) → length (drop n s) ≤ length s
drop-le zero s = omega arith
drop-le (suc n) [] = omega arith
drop-le (suc n) (c ∷ s) = omega (arith, drop-le n s)

entries-le :
    (count num : ℕ) (e e' : Entries)
    → read_entries count num e ≡ ok e'
    → length e'.rest ≤ length e.rest
unfolding read_entries
entries-le zero num e e' h = ground arith
entries-le (suc count) num e e' h = elim (Option-cases (xref_entry (take 20 e.rest))) [
  | inl miss ↦ absurd (err-ne-ok (rw (miss, read_entries) at h))
  | inr (found, hit) ↦
      let k =
        entries-le count (suc num) (with_entry num e found) e' (rw (hit, read_entries) at h) in
      omega (arith, k, drop-le 20 e.rest)
]

some-ne-none : {A : Type 0} {a : A} → some a ≡ none → ⊥
some-ne-none h = cc

after_header-total :
    (fuel : ℕ) (r : Result Entries)
    → ((e : Entries) → r ≡ ok e → read_subsections fuel e ≢ none)
    → ◌≢◌ {A = Option (Result Entries)}
        (elim r [ err x ↦ some (err x) | ok e ↦ read_subsections fuel e ])
        none
after_header-total fuel (err x) h = λ k. cc
after_header-total fuel (ok e) h = h e refl

-- The fuel is more than the text that is left.
subsections-total : (fuel : ℕ) (e : Entries) → length e.rest < fuel → read_subsections fuel e ≢ none
unfolding read_subsections
subsections-total zero e h = absurd (omega arith)
subsections-total (suc fuel) e h = elim (Option-cases (subsection_header e.rest)) [
  | inl miss ↦ λ k. some-ne-none (rw (miss, read_subsections) at k)
  | inr (header, hit) ↦ λ k.
      after_header-total fuel
        (read_entries header.count header.start
          (record { entries = e.entries; rest = header.rest }))
        (λ e' k'. subsections-total fuel e' (
          omega (arith, header-lt e.rest header hit, entries-le header.count header.start _ e' k')))
        (rw (hit, read_subsections) at k)
]

then_trailer-total : (s : Text) (o : Option (Result Entries)) → o ≢ none → then_trailer s o ≢ none
then_trailer-total s none h = absurd (h refl)
then_trailer-total s (some (err x)) h = λ k. cc
then_trailer-total s (some (ok e)) h = λ k. cc

section-total : (buf : List ℕ) (offset : ℕ) → parse_xref_section buf offset ≢ none
unfolding parse_xref_section parse_section_text
section-total buf offset =
    let s = window buf offset in
    elim (Bool-cases (starts_with (codes "xref") s)) [
      | inl hit ↦
          rw (hit, parse_xref_section)
            (then_trailer-total s _ (
              subsections-total (suc (length s)) (record { entries = []; rest = drop 4 s })
                (omega (arith, drop-le 4 s))))
      | inr miss ↦ rw (miss, parse_xref_section) (λ k. cc)
    ]

-- A section begins within the document.
drop-past : (n : ℕ) (s : List ℕ) → length s ≤ n → drop n s ≡ []
drop-past zero [] h = refl
drop-past zero (c ∷ s) h = absurd (omega arith)
drop-past (suc n) [] h = refl
drop-past (suc n) (c ∷ s) h = drop-past n s (omega arith)

section-within :
    (buf : List ℕ) (offset : ℕ) (section : XrefSection)
    → parse_xref_section buf offset ≡ some (ok section)
    → offset < length buf
unfolding parse_xref_section parse_section_text starts_with
section-within buf offset section h = elim (dec_lt offset (length buf)) [
  | yes within ↦ within
  | no past ↦ absurd (no_section (rw (drop-past offset buf (omega arith), parse_xref_section) at h))
]
  where
    no_section :
        ◌≡◌ {A = Option (Result XrefSection)}
          (some (err (other_error "expected a classic xref table")))
          (some (ok section))
        → ⊥
    no_section k = cc

-- The places below `n` that were seen.
seen_below : ℕ → List ℕ → ℕ
seen_below zero seen = 0
seen_below (suc n) seen = (if includes seen n then 1 else 0) + seen_below n seen

seen_below-le : (n : ℕ) (seen : List ℕ) → seen_below n seen ≤ n
unfolding seen_below
seen_below-le zero seen = omega arith
seen_below-le (suc n) seen = ground (arith, seen_below-le n seen)

seen_below-above :
    (n : ℕ) (o : ℕ) (seen : List ℕ) → n ≤ o → seen_below n (o ∷ seen) ≡ seen_below n seen
unfolding seen_below
seen_below-above zero o seen h = refl
seen_below-above (suc n) o seen h = ground (arith, seen_below-above n o seen)

-- A place that was not seen is one more.
seen_below-new :
    (n : ℕ) (o : ℕ) (seen : List ℕ)
    → o < n
    → includes seen o ≡ false
    → seen_below n (o ∷ seen) ≡ suc (seen_below n seen)
unfolding seen_below
seen_below-new zero o seen h k = absurd (omega arith)
seen_below-new (suc n) o seen h k = elim (Bool-cases (nat_eq o n)) [
  | inl here ↦ ground (arith, seen_below-above n o seen)
  | inr there ↦ ground (arith, seen_below-new n o seen)
]

after_section-total :
    (fuel : ℕ) (buf : List ℕ) (offset : ℕ) (w : Walk) (o : Option (Result XrefSection))
    → o ≢ none
    → ((section : XrefSection)
        → o ≡ some (ok section)
        → walk_sections fuel buf section.prev (walked w offset section) ≢ none)
    → ◌≢◌ {A = Option (Result Walk)}
        (elim o [
          | none ↦ none
          | some r ↦ elim r [
            | err x ↦ some (err x)
            | ok section ↦ walk_sections fuel buf section.prev (walked w offset section)
          ]
        ])
        none
after_section-total fuel buf offset w none h k = absurd (h refl)
after_section-total fuel buf offset w (some (err x)) h k = λ e. cc
after_section-total fuel buf offset w (some (ok section)) h k = k section refl

-- The fuel and the places that were seen are more than the length of the document.
walk-total :
    (fuel : ℕ) (buf : List ℕ) (o : Option ℕ) (w : Walk)
    → length buf < fuel + seen_below (length buf) w.seen
    → walk_sections fuel buf o w ≢ none
unfolding walk_sections walked
walk-total zero buf none w h = λ k. cc
walk-total (suc fuel) buf none w h = λ k. cc
walk-total zero buf (some offset) w h = absurd (omega (arith, seen_below-le (length buf) w.seen))
walk-total (suc fuel) buf (some offset) w h = elim (Bool-cases (includes w.seen offset)) [
  | inl seen ↦ λ k. some-ne-none (rw (seen, walk_sections) at k)
  | inr new ↦ λ k.
      after_section-total fuel buf offset w (parse_xref_section buf offset)
        (section-total buf offset)
        (λ section e. walk-total fuel buf section.prev (walked w offset section) (
          omega (
            arith,
            seen_below-new (length buf) offset w.seen (section-within buf offset section e) new,
          )))
        (rw (new, walk_sections) at k)
]

then_index-total : (o : Option (Result Walk)) → o ≢ none → then_index o ≢ none
then_index-total none h = absurd (h refl)
then_index-total (some (err x)) h = λ k. cc
then_index-total (some (ok w)) h = λ k. cc

-- The parser returns or throws on every document: its fuel does not run out.
pub parse_document-terminates : (buf : List ℕ) → parse_document buf ≢ none
unfolding parse_document
parse_document-terminates buf = go (find_start_xref buf)
  where
    go : (r : Result ℕ) → then_walk buf r ≢ none
    go (err x) = λ k. cc
    go (ok start) =
        then_index-total _
          (walk-total (suc (length buf)) buf (some start) no_sections (omega arith))

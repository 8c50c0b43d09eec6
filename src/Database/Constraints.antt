-- ===== src/Database/Constraints.antt =====
-- The constraints of the table of agreements on a row that is COMPLETED or REJECTED
-- (api/migrations/004_agreements_and_workflow.ts).
use onlineaggrement.Base.{
  ℕ, ◌≡◌, ◌<◌, ◌⊎◌, inl, inr, Bool, true, false, not, ◌&&◌, ◌||◌, Option, none, some, Text, select,
  length, leb, ltb, ◌==◌, arith,
}
use onlineaggrement.Workflow.States.{AgreementState, AgreementState_eq, completed, rejected}
use onlineaggrement.Database.Rows.{AgreementRow}

abbrev is_low_surrogate : ℕ → Bool
is_low_surrogate c = leb 0xDC00 c && leb c 0xDFFF

-- `length` of PostgreSQL, of a text in which surrogates come in pairs: a pair is one character.
abbrev pub characters : Text → ℕ
characters t = length (select (λ c. not (is_low_surrogate c)) t)

abbrev is_null {ℓ} : {A : Type ℓ} → Option A → Bool
is_null none = true
is_null (some a) = false

abbrev pub lacks_evidence : AgreementRow → Bool
lacks_evidence r = r.status == completed && (is_null r.completed_at || is_null r.verification_token)

abbrev is_short : Option Text → Bool
is_short none = true
is_short (some t) = ltb (characters t) 10

abbrev pub lacks_rejected_reason : AgreementRow → Bool
lacks_rejected_reason r = r.status == rejected && is_short r.rejected_reason

-- The row breaks one of the constraints.
abbrev pub violates : AgreementRow → Bool
violates r = lacks_evidence r || lacks_rejected_reason r

-- The row is COMPLETED without the time or the token, or REJECTED without a reason of ten characters.
abbrev pub IsViolation : AgreementRow → Type 0
IsViolation r =
    ((r.status ≡ completed) × ((r.completed_at ≡ none) ⊎ (r.verification_token ≡ none)))
    ⊎ ((r.status ≡ rejected)
        × ((r.rejected_reason ≡ none)
            ⊎ ((t : Text) × (r.rejected_reason ≡ some t) × (characters t < 10))))

missing-none : {A : Type 0} (o : Option A) → is_null o ≡ true → o ≡ none
missing-none none h = cc
missing-none (some a) h = cc

short-cases :
    (o : Option Text)
    → is_short o ≡ true
    → (o ≡ none) ⊎ ((t : Text) × (o ≡ some t) × (characters t < 10))
short-cases none h = inl cc
short-cases (some t) h = inr (t, cc, ground (arith, h))

and-both : (a b : Bool) → (a && b) ≡ true → (a ≡ true) × (b ≡ true)
and-both true b h = (cc, h)
and-both false b h = cc

or-either : (a b : Bool) → (a || b) ≡ true → (a ≡ true) ⊎ (b ≡ true)
or-either true b h = inl h
or-either false b h = inr h

pub violates-IsViolation : (r : AgreementRow) → violates r ≡ true → IsViolation r
violates-IsViolation r h = elim (or-either (lacks_evidence r) (lacks_rejected_reason r) h) [
  | inl k ↦
      let (at, lacks) = and-both (r.status == completed) _ k in
      inl (
        (AgreementState_eq.beq_iff r.status completed).0 at,
        elim (or-either (is_null r.completed_at) (is_null r.verification_token) lacks) [
          | inl m ↦ inl (missing-none r.completed_at m)
          | inr m ↦ inr (missing-none r.verification_token m)
        ],
      )
  | inr k ↦
      let (at, short) = and-both (r.status == rejected) (is_short r.rejected_reason) k in
      inr ((AgreementState_eq.beq_iff r.status rejected).0 at, short-cases r.rejected_reason short)
]

-- A row in another state breaks neither.
pub violates-others :
    (r : AgreementRow) (s : AgreementState)
    → r.status ≡ s
    → (s == completed) ≡ false
    → (s == rejected) ≡ false
    → violates r ≡ false
violates-others r s e h k = rw (e, h, k)

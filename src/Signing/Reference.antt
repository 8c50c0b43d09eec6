-- ===== src/Signing/Reference.antt =====
-- The execution reference of an agreement (mintExecutionReference of
-- api/src/signing/signing.service.ts, financialYear of api/src/common/util/financial-year.ts, and
-- next_execution_reference of api/migrations/017_execution_reference.ts).
use onlineaggrement.Base.{
  ℕ, suc, ◌+◌, ◌-◌, ◌%◌, Bool, true, false, ◌&&◌, ◌||◌, List, [], ◌∷◌, ◌++◌, Option, none, some,
  Text, Text_eq, lpad, pad_start, to_upper_case, to_lower_case, decimal, leb, nat_eq, first,
  update_where, insert, any, ◌==◌, ℕ_eq, if◌then◌else◌,
}
use onlineaggrement.Database.{Db, AgreementRow, UserRow, BankRow, ExecutionSequenceRow, PartyRow}
use onlineaggrement.Service.{M, ◌>>=◌, ◌>>◌, return, query, write, current_time}
use onlineaggrement.Documents.{Platform}
use onlineaggrement.Documents.Storage.{party_index}

-- The financial year begins in April, the third month from 0.
unfoldable pub financial_year : (year month : ℕ) → Text
financial_year y month =
    let start_year = if leb 3 month then y else y - 1 in
    decimal start_year ++ b'-' ∷ pad_start (decimal ((start_year + 1) % 100)) 2

unfoldable pub reference : (bank_code agent_code fy : Text) → ℕ → Text
reference bank_code agent_code fy next =
    to_upper_case bank_code
    ++ (b'/' ∷ (to_upper_case agent_code ++ (b'/' ∷ (fy ++ (b'/' ∷ lpad (decimal next) 3)))))

abbrev is_sequence : Text → Text → ExecutionSequenceRow → Bool
is_sequence agent_code fy r = r.agent_code == agent_code && r.financial_year == fy

-- The insertion does nothing where the counter is there.
unfoldable pub ensure_sequence : Text → Text → Db → Db
ensure_sequence agent_code fy d = record d {
  agent_execution_sequences =
      if any (is_sequence agent_code fy) d.agent_execution_sequences
      then d.agent_execution_sequences
      else insert (record { agent_code = agent_code; financial_year = fy; next_value = 1 })
          d.agent_execution_sequences;
}

abbrev pub next_value_of : Option ExecutionSequenceRow → ℕ
next_value_of none = 1
next_value_of (some r) = r.next_value

unfoldable pub next_execution_reference : (bank_code agent_code fy : Text) → M Text
next_execution_reference bank_code agent_code fy = do
  write (ensure_sequence agent_code fy)
  row ← query (λ d. first (is_sequence agent_code fy) d.agent_execution_sequences)
  write (λ d. record d {
    agent_execution_sequences =
        update_where (is_sequence agent_code fy) (λ r. record r { next_value = suc r.next_value })
          d.agent_execution_sequences;
  })
  return (reference bank_code agent_code fy (next_value_of row))

abbrev has_user : PartyRow → UserRow → Bool
has_user p u =
    elim p.user_id [ none ↦ false | some i ↦ i == u.id ]
    || to_lower_case u.email == to_lower_case p.email

abbrev code_of : Option UserRow → Option Text
code_of none = none
code_of (some u) = u.agent_code

abbrev has_code : UserRow → Bool
has_code u = elim u.agent_code [ none ↦ false | some c ↦ true ]

-- The code of the first user with a code who is an agent of the agreement, by identity or email.
unfoldable pub agent_code_of : ℕ → List PartyRow → List UserRow → Option Text
agent_code_of agreement_id [] users = none
agent_code_of agreement_id (p ∷ parties) users =
    let rest = agent_code_of agreement_id parties users in
    if p.agreement_id == agreement_id
      && nat_eq (party_index p.party_type) 0
      && any (λ u. has_user p u && has_code u) users
    then code_of (first (λ u. has_user p u && has_code u) users)
    else rest

-- A text that is there and not empty.
abbrev present : Option Text → Option Text
present none = none
present (some []) = none
present (some (c ∷ s)) = some (c ∷ s)

abbrev stored_reference : Option AgreementRow → Option Text
stored_reference none = none
stored_reference (some r) = present r.execution_reference

-- `bank?.code ?? 'GT'`
abbrev bank_code_of : Option ℕ → List BankRow → Text
bank_code_of none banks = b'G' ∷ b'T' ∷ []
bank_code_of (some i) banks = elim (first (λ b. b.id == i) banks) [
  | none ↦ b'G' ∷ b'T' ∷ []
  | some b ↦ b.code
]

module _ (platform : Platform) where
  unfoldable pub mint_for : AgreementRow → Option Text → M (Option Text)
  mint_for agreement none = return none
  mint_for agreement (some code) = do
    bank_code ← query (λ d. bank_code_of agreement.bank_id d.banks)
    now ← current_time
    minted ←
        next_execution_reference bank_code code
          (financial_year (platform.year now) (platform.month now - 1))
    return (some minted)

  unfoldable pub keep_or_mint : AgreementRow → Option Text → M (Option Text)
  keep_or_mint agreement (some kept) = return (some kept)
  keep_or_mint agreement none =
      query (λ d. present (agent_code_of agreement.id d.agreement_parties d.users)) >>= λ code.
      mint_for agreement code

  unfoldable pub mint_execution_reference : AgreementRow → M (Option Text)
  mint_execution_reference agreement =
      query (λ d. stored_reference (first (λ r. r.id == agreement.id) d.agreements)) >>= λ existing.
      keep_or_mint agreement existing

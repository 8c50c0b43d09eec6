-- ===== src/Agreements/Numbers.antt =====
-- The agreement number (next_agreement_number of api/migrations/010_agreement_numbering.ts).
use onlineaggrement.Base.{
  ℕ, suc, Bool, ◌&&◌, ◌++◌, Option, none, some, Text, Text_eq, codes, decimal, lpad, any, first,
  insert, update_where, ◌==◌, if◌then◌else◌,
}
use onlineaggrement.Database.{Db, AgreementNumberRow}
use onlineaggrement.Service.{M, ◌>>=◌, ◌>>◌, return, query, write}

abbrev is_number_sequence : Text → Text → AgreementNumberRow → Bool
is_number_sequence fy type_code r = r.financial_year == fy && r.type_code == type_code

-- The insertion does nothing where the counter is there.
unfoldable pub ensure_number_sequence : Text → Text → Db → Db
ensure_number_sequence fy type_code d = record d {
  agreement_number_sequences =
      if any (is_number_sequence fy type_code) d.agreement_number_sequences
      then d.agreement_number_sequences
      else insert (record { financial_year = fy; type_code = type_code; next_value = 1 })
          d.agreement_number_sequences;
}

abbrev pub next_number : Option AgreementNumberRow → ℕ
next_number none = 1
next_number (some r) = r.next_value

unfoldable pub agreement_number : (fy type_code : Text) → ℕ → Text
agreement_number fy type_code n =
    codes "GTIDS/" ++ (fy ++ (codes "/" ++ (type_code ++ (codes "/" ++ lpad (decimal n) 6))))

unfoldable pub next_agreement_number : (fy type_code : Text) → M Text
next_agreement_number fy type_code = do
  write (ensure_number_sequence fy type_code)
  row ← query (λ d. first (is_number_sequence fy type_code) d.agreement_number_sequences)
  write (λ d. record d {
    agreement_number_sequences =
        update_where (is_number_sequence fy type_code)
          (λ r. record r { next_value = suc r.next_value }) d.agreement_number_sequences;
  })
  return (agreement_number fy type_code (next_number row))

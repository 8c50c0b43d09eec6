-- ===== src/Agreements/Parties.antt =====
-- The parties of an agreement: those of the request, and those that the service adds (create of
-- api/src/agreements/agreements.service.ts).
use onlineaggrement.Base.{
  ℕ, Bool, false, not, ◌&&◌, List, [], ◌∷◌, ◌++◌, Option, none, some, Text, any, insert, ltb,
  length, nat_eq, ◌==◌, ℕ_eq, if◌then◌else◌,
}
use onlineaggrement.Errors.{other_error}
use onlineaggrement.Database.{
  AgreementTypeRow, UserRow, PartyRow, PartyType, agent, employee, md, accounts,
}
use onlineaggrement.Service.{M, ◌>>=◌, ◌>>◌, return, throw_if, query, write, fresh_id}
use onlineaggrement.Documents.Storage.{party_index}

pub record PartyInput : Type 0 where
  pub party_type : PartyType
  pub user_id : Option ℕ
  pub name : Text
  pub email : Text
  pub mobile : Option Text
  pub identity_reference : Option Text

abbrev pub is_kind : PartyType → PartyType → Bool
is_kind a b = nat_eq (party_index a) (party_index b)

abbrev pub has_party : PartyType → List PartyInput → Bool
has_party kind parties = any (λ p. is_kind p.party_type kind) parties

abbrev pub signing_order : PartyType → ℕ
signing_order agent = 1
signing_order employee = 2
signing_order md = 3
signing_order accounts = 9

abbrev pub employee_party : UserRow → PartyInput
employee_party signer = record {
  party_type = employee;
  user_id = some signer.id;
  name = signer.full_name;
  email = signer.email;
  mobile = none;
  identity_reference = none;
}

abbrev pub accounts_party : Text → PartyInput
accounts_party email = record {
  party_type = accounts;
  user_id = none;
  name = b'A' ∷ b'c' ∷ b'c' ∷ b'o' ∷ b'u' ∷ b'n' ∷ b't' ∷ b's' ∷ [];
  email = email;
  mobile = none;
  identity_reference = none;
}

-- The parties that the type adds after the employee.
abbrev pub accounts_parties : AgreementTypeRow → List PartyInput → List PartyInput
accounts_parties type parties = elim type.accounts_email [
  | none ↦ []
  | some email ↦
      if ltb 0 (length email) && not (has_party accounts parties)
      then accounts_party email ∷ []
      else []
]

unfoldable pub all_parties : AgreementTypeRow → UserRow → List PartyInput → List PartyInput
all_parties type signer parties = parties ++ employee_party signer ∷ accounts_parties type parties

unfoldable pub party_row : ℕ → ℕ → PartyInput → PartyRow
party_row id agreement_id p = record {
  id = id;
  agreement_id = agreement_id;
  party_type = p.party_type;
  user_id = p.user_id;
  name = p.name;
  email = p.email;
  mobile = p.mobile;
  identity_reference = p.identity_reference;
  signing_order = signing_order p.party_type;
  acted = false;
}

-- `uq_agreement_principal_party`: one agent, one employee and one MD.
unfoldable pub same_principal : PartyRow → PartyRow → Bool
same_principal a b =
    a.agreement_id == b.agreement_id
    && is_kind a.party_type b.party_type
    && not (is_kind a.party_type accounts)

unfoldable pub insert_parties : ℕ → List PartyInput → M (Unit {0})
insert_parties agreement_id [] = return tt
insert_parties agreement_id (p ∷ parties) = do
  id ← fresh_id
  taken ← query (λ d. any (same_principal (party_row id agreement_id p)) d.agreement_parties)
  throw_if taken (other_error "unique_violation")
  write (λ d. record d {
    agreement_parties = insert (party_row id agreement_id p) d.agreement_parties;
  })
  insert_parties agreement_id parties

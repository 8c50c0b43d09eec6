-- ===== src/Agreements/Drafts.antt =====
-- The creation of an agreement and the editing of its draft (create, updateDraft and their helpers
-- of api/src/agreements/agreements.service.ts).
pub mod Settling
pub mod Tables
pub mod Creation
use onlineaggrement.Base.{
  codes, ℕ, ◌-◌, Bool, true, false, not, ◌&&◌, List, [], ◌∷◌, Option, none, some, String, Text,
  Text_eq, String_eq, any, first, select, insert, ltb, length, ◌==◌, ℕ_eq, if◌then◌else◌,
}
use onlineaggrement.Errors.{not_found, validation, forbidden, other_error}
use onlineaggrement.Database.{
  Db, AgreementRow, AgreementTypeRow, TemplateVersionRow, TemplateStatus, BankRow, UserRow, agent,
  employee, md, Datum, null, str, txt, num, agreement_created,
}
use onlineaggrement.Service.{
  M, ◌>>=◌, ◌>>◌, return, throw, throw_if, or_throw, branch, query, write, current_time, fresh_id,
  transaction,
}
use onlineaggrement.Audit.{audit_record}
use onlineaggrement.Workflow.States.{AgreementState, AgreementState_eq}
use onlineaggrement.Documents.{Platform}
use onlineaggrement.Signing.Parties.{Principal}
use onlineaggrement.Signing.Reference.{financial_year}
use onlineaggrement.Agreements.Numbers.{next_agreement_number}
use onlineaggrement.Agreements.Parties.{PartyInput, has_party, all_parties, insert_parties}

pub record CreateAgreementInput : Type 0 where
  pub agreement_type_id : ℕ
  pub template_version_id : Option ℕ
  pub place_of_execution_state : Option String
  pub bank_id : Option ℕ
  pub form : List (String × Datum)
  pub parties : List PartyInput

pub record ClientContext : Type 0 where
  pub ip_address : Option String
  pub user_agent : Option String

-- `data[key]` is undefined, null or the empty text.
abbrev is_missing : Option Datum → Bool
is_missing none = true
is_missing (some null) = true
is_missing (some (str s)) = s == ""
is_missing (some (txt [])) = true
is_missing (some _) = false

unfoldable pub lookup : Text → List (String × Datum) → Option Datum
lookup key [] = none
lookup key ((k, v) ∷ form) = if codes k == key then some v else lookup key form

unfoldable pub missing_variables : List Text → List (String × Datum) → List Text
missing_variables required form = select (λ key. is_missing (lookup key form)) required

unfoldable pub assert_template_variables : List Text → List (String × Datum) → M (Unit {0})
assert_template_variables required form =
    throw_if (ltb 0 (length (missing_variables required form))) validation

abbrev is_approved : TemplateStatus → Bool
is_approved TemplateStatus.approved = true
is_approved _ = false

unfoldable pub approved_version : CreateAgreementInput → Option ℕ → M (Option TemplateVersionRow)
approved_version input none = throw validation
approved_version input (some version_id) = do
  row ← query (λ d. first (λ v. v.id == version_id) d.agreement_template_versions)
  version ← or_throw row (not_found "Template version")
  throw_if (not (is_approved version.status)) validation
  assert_template_variables version.required input.form
  return (some version)

-- A type whose document is uploaded has no template.
unfoldable pub template_for :
    AgreementTypeRow → CreateAgreementInput → M (Option TemplateVersionRow)
template_for type input =
    branch type.from_template (approved_version input input.template_version_id) (return none)

unfoldable pub bank_or_throw : ℕ → M BankRow
bank_or_throw id = do
  row ← query (λ d. first (λ b. b.id == id) d.banks)
  bank ← or_throw row (not_found "Bank")
  throw_if (not bank.is_active) validation
  return bank

abbrev bank_of_user : Option UserRow → Option ℕ
bank_of_user none = none
bank_of_user (some u) = u.bank_id

abbrev differs : Option ℕ → ℕ → Bool
differs none bank_id = false
differs (some i) bank_id = not (i == bank_id)

unfoldable pub bank_for : Option ℕ → Option ℕ → M (Option BankRow)
bank_for (some own) requested = do
  throw_if (differs requested own) (forbidden (some "DEC-031"))
  bank ← bank_or_throw own
  return (some bank)
bank_for none none = return none
bank_for none (some id) = do bank ← bank_or_throw id; return (some bank)

-- The user's own bank takes precedence over the request.
unfoldable pub resolve_bank : Option ℕ → Principal → M (Option BankRow)
resolve_bank requested actor = do
  acting_user ← query (λ d. first (λ u. u.id == actor.user_id) d.users)
  bank_for (bank_of_user acting_user) requested

-- A bank's signer does not fall back to that of the type.
abbrev pub designated : Option BankRow → AgreementTypeRow → Option ℕ
designated none type = type.employee_signer_user_id
designated (some bank) type = bank.employee_signer_user_id

abbrev pub active_user : Option ℕ → Db → Option UserRow
active_user none d = none
active_user (some i) d = first (λ u. u.id == i && u.is_active) d.users

unfoldable pub resolve_employee_signer : Option BankRow → AgreementTypeRow → M UserRow
resolve_employee_signer bank type =
    query (active_user (designated bank type)) >>= λ user. or_throw user validation

abbrev id_of_version : Option TemplateVersionRow → Option ℕ
id_of_version none = none
id_of_version (some v) = some v.id

abbrev pub id_of_bank : Option BankRow → Option ℕ
id_of_bank none = none
id_of_bank (some b) = some b.id

pub record Settled : Type 0 where
  pub type : AgreementTypeRow
  pub template : Option TemplateVersionRow
  pub bank : Option BankRow
  pub signer : UserRow

unfoldable pub draft_row : CreateAgreementInput → Settled → Principal → ℕ → Text → ℕ → AgreementRow
draft_row input s actor id number now = record {
  id = id;
  agreement_number = number;
  agreement_type_id = s.type.id;
  template_version_id = id_of_version s.template;
  status = AgreementState.draft;
  current_version = 1;
  row_version = 1;
  updated_at = now;
  stamped = s.type.requires_stamp;
  external_parties = s.type.external_parties;
  place_of_execution_state = input.place_of_execution_state;
  form = input.form;
  bank_id = id_of_bank s.bank;
  created_by = actor.user_id;
  expires_at = none;
  execution_reference = none;
  verification_token = none;
  completed_at = none;
  rejected_reason = none;
  rejected_by = none;
  rejected_at = none;
}

unfoldable pub insert_agreement : AgreementRow → M (Unit {0})
insert_agreement a = do
  taken ← query (λ d. any (λ b. b.agreement_number == a.agreement_number) d.agreements)
  throw_if taken (other_error "unique_violation")
  write (λ d. record d { agreements = insert a d.agreements })

abbrev present_id : Option ℕ → Datum
present_id none = null
present_id (some n) = num n

module _ (platform : Platform) (input : CreateAgreementInput) (actor : Principal) where
  unfoldable pub check_input : AgreementTypeRow → M (Option TemplateVersionRow)
  check_input type = do
    throw_if (not type.is_active) validation
    template ← template_for type input
    throw_if (not (has_party agent input.parties)) validation
    throw_if (not (has_party md input.parties)) validation
    throw_if (has_party employee input.parties) validation
    return template

  unfoldable pub settle_signer : AgreementTypeRow → Option TemplateVersionRow → M Settled
  settle_signer type template = do
    bank ← resolve_bank input.bank_id actor
    signer ← resolve_employee_signer bank type
    return (record { type = type; template = template; bank = bank; signer = signer })

  unfoldable pub settle_agreement : M Settled
  settle_agreement = do
    row ← query (λ d. first (λ t. t.id == input.agreement_type_id) d.agreement_types)
    type ← or_throw row (not_found "Agreement type")
    template ← check_input type
    settle_signer type template

  unfoldable pub store_agreement : ClientContext → Settled → AgreementRow → M AgreementRow
  store_agreement ctx s agreement = do
    insert_agreement agreement
    insert_parties agreement.id (all_parties s.type s.signer input.parties)
    audit_record agreement_created
        (("agreementNumber", txt agreement.agreement_number)
          ∷ ("agreementType", txt s.type.code)
          ∷ ("templateVersionId", present_id (id_of_version s.template))
          ∷ [])
        (record {
          agreement_id = some agreement.id;
          agreement_version = some 1;
          actor_id = some actor.user_id;
          ip_address = ctx.ip_address;
          user_agent = ctx.user_agent;
        })
    return agreement

  unfoldable pub create_in : ClientContext → Settled → M AgreementRow
  create_in ctx s = do
    now ← current_time
    number ←
        next_agreement_number (financial_year (platform.year now) (platform.month now - 1))
          s.type.code
    id ← fresh_id
    store_agreement ctx s (draft_row input s actor id number now)

  unfoldable pub create_agreement : ClientContext → M AgreementRow
  create_agreement ctx = settle_agreement >>= λ s. transaction (create_in ctx s)

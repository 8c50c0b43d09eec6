-- ===== src/Banks.antt =====
-- Banks and their agreement documents (api/src/banks/banks.service.ts), with the unique indexes of
-- api/migrations/015_banks_and_three_party.ts.
pub mod Documents
mod Examples
use onlineaggrement.Base.{
  ℕ, suc, ◌+◌, ◌*◌, Bool, true, false, not, ◌&&◌, ◌||◌, List, [], ◌∷◌, ◌++◌, Option, none, some,
  String, Text, Text_eq, String_eq, trim, to_upper_case, any, first, select, insert, update_where,
  includes, map, ◌==◌, ℕ_eq, if◌then◌else◌,
}
use onlineaggrement.Errors.{DomainError, not_found, validation, conflict, other_error}
use onlineaggrement.Database.{
  Db, BankRow, UserRow, UserRoleRow, Datum, null, num, str, txt, configuration_changed,
}
use onlineaggrement.Service.{
  M, ◌>>=◌, ◌>>◌, return, throw, throw_if, or_throw, query, write, current_time, fresh_id, catch,
}
use onlineaggrement.Audit.{AuditContext, audit_record}
use onlineaggrement.Workflow.States.{Role, Role_eq}
use onlineaggrement.Workflow.States

unfoldable pub get_bank : ℕ → M BankRow
get_bank id =
    query (λ d. first (λ b. b.id == id) d.banks) >>= λ row. or_throw row (not_found "Bank")

-- `text?.trim() || null`
abbrev pub trimmed : Option Text → Option Text
trimmed none = none
trimmed (some s) = elim (trim s) [ [] ↦ none | c ∷ t ↦ some (c ∷ t) ]

-- `uq_banks_code_ci` and `uq_banks_name_ci`, which leave out the row itself on an update.
abbrev pub same_code : ℕ → Text → BankRow → Bool
same_code id code b = to_upper_case b.code == to_upper_case code && not (b.id == id)

abbrev pub same_name : ℕ → Text → BankRow → Bool
same_name id name b = to_upper_case b.name == to_upper_case name && not (b.id == id)

unfoldable pub check_bank : ℕ → Text → Text → M (Unit {0})
check_bank id code name = do
  code_taken ← query (λ d. any (same_code id code) d.banks)
  throw_if code_taken (other_error "uq_banks_code_ci")
  name_taken ← query (λ d. any (same_name id name) d.banks)
  throw_if name_taken (other_error "uq_banks_name_ci")

unfoldable pub translate : DomainError → DomainError
translate (other_error what) =
    if what == "uq_banks_code_ci" || what == "uq_banks_name_ci"
    then conflict (some "DEC-031")
    else other_error what
translate e = e

abbrev pub by_actor : ℕ → AuditContext
by_actor actor_id = record {
  agreement_id = none;
  agreement_version = none;
  actor_id = some actor_id;
  ip_address = none;
  user_agent = none;
}

pub record CreateBankInput : Type 0 where
  pub code : Text
  pub name : Text
  pub contact_email : Option Text
  pub contact_person : Option Text

unfoldable pub new_bank : CreateBankInput → ℕ → BankRow
new_bank input id = record {
  id = id;
  code = trim input.code;
  name = trim input.name;
  contact_email = trimmed input.contact_email;
  contact_person = trimmed input.contact_person;
  employee_signer_user_id = none;
  is_active = true;
}

unfoldable pub insert_bank : CreateBankInput → ℕ → M BankRow
insert_bank input actor_id = do
  id ← fresh_id
  check_bank id (trim input.code) (trim input.name)
  write (λ d. record d { banks = insert (new_bank input id) d.banks })
  audit_record configuration_changed
      (("change", str "BANK_CREATED")
        ∷ ("bankId", num id)
        ∷ ("code", txt (trim input.code))
        ∷ ("name", txt (trim input.name))
        ∷ [])
      (by_actor actor_id)
  return (new_bank input id)

unfoldable pub create_bank : CreateBankInput → ℕ → M BankRow
create_bank input actor_id = catch (insert_bank input actor_id) (λ e. throw (translate e))

abbrev pub roles_of : ℕ → Db → List Role
roles_of user_id d = map (λ r. r.role) (select (λ r. r.user_id == user_id) d.user_roles)

abbrev pub is_there {ℓ} : {A : Type ℓ} → Option A → Bool
is_there none = false
is_there (some a) = true

-- A signer is active, belongs to no bank, and holds the role of an employee.
unfoldable pub assert_eligible_signer : ℕ → M (Unit {0})
assert_eligible_signer user_id = do
  row ← query (λ d. first (λ u. u.id == user_id) d.users)
  user ← or_throw row (not_found "User")
  throw_if (not user.is_active) validation
  throw_if (is_there user.bank_id) validation
  roles ← query (roles_of user_id)
  throw_if (not (includes roles States.employee)) validation

unfoldable pub eligible_signers : M (List UserRow)
eligible_signers = query λ d.
    select
      (λ u. includes (roles_of u.id d) States.employee && u.is_active && not (is_there u.bank_id))
      d.users

pub record UpdateBankInput : Type 0 where
  pub name : Option Text
  pub contact_email : Option Text
  pub contact_person : Option Text
  pub employee_signer_user_id : Option ℕ
  pub is_active : Option Bool

abbrev or_old {ℓ} : {A : Type ℓ} → Option A → A → A
or_old none old = old
or_old (some new) old = new

abbrev contact_after : Option Text → Option Text → Option Text
contact_after none old = old
contact_after (some s) old = trimmed (some s)

abbrev name_after : Option Text → Text → Text
name_after none old = old
name_after (some s) old = trim s

abbrev signer_after : Option ℕ → Option ℕ → Option ℕ
signer_after none old = old
signer_after (some i) old = some i

unfoldable pub patched_bank : UpdateBankInput → BankRow → BankRow
patched_bank input b = record b {
  name = name_after input.name b.name;
  contact_email = contact_after input.contact_email b.contact_email;
  contact_person = contact_after input.contact_person b.contact_person;
  employee_signer_user_id = signer_after input.employee_signer_user_id b.employee_signer_user_id;
  is_active = or_old input.is_active b.is_active;
}

unfoldable pub check_signer : Option ℕ → M (Unit {0})
check_signer none = return tt
check_signer (some user_id) = assert_eligible_signer user_id

unfoldable pub write_bank : ℕ → UpdateBankInput → BankRow → ℕ → M BankRow
write_bank id input bank actor_id = do
  check_bank id bank.code (name_after input.name bank.name)
  write (λ d. record d { banks = update_where (λ b. b.id == id) (patched_bank input) d.banks })
  audit_record configuration_changed (("change", str "BANK_UPDATED") ∷ ("bankId", num id) ∷ [])
      (by_actor actor_id)
  return (patched_bank input bank)

unfoldable pub update_bank : ℕ → UpdateBankInput → ℕ → M BankRow
update_bank id input actor_id = do
  bank ← get_bank id
  check_signer input.employee_signer_user_id
  catch (write_bank id input bank actor_id) (λ e. throw (translate e))

-- ===== src/Users.antt =====
-- The administration of users (api/src/users/users.service.ts).
pub mod Passwords
pub mod Administrators
mod Examples
use onlineaggrement.Base.{
  ℕ, zero, suc, ◌+◌, ◌-◌, ◌*◌, Bool, true, false, not, ◌&&◌, ◌||◌, List, [], ◌∷◌, ◌++◌, Option,
  none, some, String, Text, Text_eq, codes, trim, to_lower_case, decimal, lpad, any, first, select,
  insert, update_where, includes, map, max, ltb, leb, nat_eq, length, ◌==◌, ℕ_eq, if◌then◌else◌,
}
use onlineaggrement.Errors.{not_found, validation, conflict, other_error}
use onlineaggrement.Database.{
  same_email, Db, UserRow, UserRoleRow, BankRow, UserType, internal, external, Datum, null, num,
  str, txt, flag, role, role_granted, configuration_changed,
}
use onlineaggrement.Service.{
  M, ◌>>=◌, ◌>>◌, return, throw, throw_if, or_throw, branch, query, write, current_time, fresh_id,
  transaction,
}
use onlineaggrement.Audit.{audit_record}
use onlineaggrement.Workflow.States.{Role, Role_eq}
use onlineaggrement.Workflow.States
use onlineaggrement.Banks.{roles_of, is_there, trimmed, by_actor, get_bank}
use onlineaggrement.Users.Passwords.{Hashing, generate_password, hash_password}

abbrev pub is_internal : UserType → Bool
is_internal internal = true
is_internal external = false

unfoldable pub list_users : Db → List UserRow
list_users d = select (λ u. is_internal u.user_type || is_there u.bank_id) d.users

unfoldable pub get_user : ℕ → Db → Option UserRow
get_user id d = first (λ u. u.id == id) (list_users d)

unfoldable pub check_bank_of : Option ℕ → M (Unit {0})
check_bank_of none = return tt
check_bank_of (some bank_id) = do bank ← get_bank bank_id; throw_if (not bank.is_active) validation

-- An agent belongs to a bank and holds no other role; nobody else belongs to one.
unfoldable pub assert_bank_pairing : List Role → Option ℕ → M (Unit {0})
assert_bank_pairing roles bank_id = do
  throw_if (includes roles States.agent && not (is_there bank_id)) validation
  throw_if (not (includes roles States.agent) && is_there bank_id) validation
  throw_if (includes roles States.agent && ltb 1 (length roles)) validation
  check_bank_of bank_id

abbrev pub is_administrator : Db → UserRow → Bool
is_administrator d u =
    includes (roles_of u.id d) States.super_admin
    || includes (roles_of u.id d) States.agreement_admin

-- The active administrators but the one.
unfoldable pub other_administrators : ℕ → Db → List UserRow
other_administrators id d =
    select (λ u. (is_administrator d u && u.is_active) && not (u.id == id)) d.users

unfoldable pub assert_not_last_administrator : ℕ → M (Unit {0})
assert_not_last_administrator id = query (λ d. length (other_administrators id d)) >>= λ count.
    throw_if (nat_eq count 0) (conflict (some "DEC-034"))

abbrev pub is_signer_of : ℕ → BankRow → Bool
is_signer_of id b =
    elim b.employee_signer_user_id [ none ↦ false | some i ↦ i == id ] && b.is_active

unfoldable pub assert_not_a_designated_signer : ℕ → M (Unit {0})
assert_not_a_designated_signer id =
    query (λ d. length (select (is_signer_of id) d.banks)) >>= λ count.
    throw_if (ltb 0 count) (conflict (some "DEC-034"))

unfoldable pub with_active : Bool → UserRow → UserRow
with_active true u = record u { is_active = true; locked_until = none; failed_login_count = 0 }
with_active false u = record u { is_active = false }

abbrev change_of : Bool → String
change_of true = "USER_ACTIVATED"
change_of false = "USER_DEACTIVATED"

unfoldable pub check_deactivation : ℕ → M (Unit {0})
check_deactivation id = assert_not_last_administrator id >> assert_not_a_designated_signer id

unfoldable pub store_active : ℕ → Bool → UserRow → ℕ → M (Option UserRow)
store_active id is_active user actor_id = do
  write (λ d. record d { users = update_where (λ u. u.id == id) (with_active is_active) d.users })
  audit_record configuration_changed
      (("change", str (change_of is_active)) ∷ ("email", txt user.email) ∷ []) (by_actor actor_id)
  query (get_user id)

unfoldable pub set_active : ℕ → Bool → ℕ → M (Option UserRow)
set_active id is_active actor_id = do
  row ← query (get_user id)
  user ← or_throw row (not_found "User")
  branch is_active (return tt) (check_deactivation id)
  store_active id is_active user actor_id

pub record UpsertInput : Type 0 where
  pub email : Text
  pub full_name : Text
  pub mobile : Option Text
  pub roles : List Role
  pub bank_id : Option ℕ
  pub password : Option Text

-- `regexp_replace(agent_code, '\D', '', 'g')`, as a number; a code without digits has none.
unfoldable pub digits_of : Text → ℕ → ℕ
digits_of [] n = n
digits_of (c ∷ s) n = digits_of s (if leb b'0' c && leb c b'9' then n * 10 + (c - b'0') else n)

abbrev number_of_code : Option Text → ℕ
number_of_code none = 0
number_of_code (some code) = digits_of code 0

unfoldable pub max_agent_number : List UserRow → ℕ
max_agent_number [] = 0
max_agent_number (u ∷ users) = max (number_of_code u.agent_code) (max_agent_number users)

unfoldable pub next_agent_code : List UserRow → Text
next_agent_code users = codes "AG" ++ lpad (decimal (suc (max_agent_number users))) 4

abbrev pub has_agent_code : UserRow → Bool
has_agent_code u = elim u.agent_code [ none ↦ false | some c ↦ ltb 0 (length c) ]

abbrev pub code_of_row : Option UserRow → Bool
code_of_row none = false
code_of_row (some u) = has_agent_code u

-- A code is given once: a user that has one keeps it.
unfoldable pub assign_agent_code : ℕ → M (Unit {0})
assign_agent_code id = do
  coded ← query (λ d. code_of_row (first (λ u. u.id == id) d.users))
  branch coded (return tt) (
      write λ d. record d {
        users =
            update_where (λ u. u.id == id)
              (λ u. record u { agent_code = some (next_agent_code d.users) }) d.users;
      })

-- An empty password counts as none.
abbrev pub given : Option Text → Option Text
given none = none
given (some []) = none
given (some (c ∷ s)) = some (c ∷ s)

-- The password is kept where none is given.
unfoldable pub updated_user : UpsertInput → Text → UserRow → UserRow
updated_user input hash u = record u {
  full_name = trim input.full_name;
  mobile = trimmed input.mobile;
  bank_id = input.bank_id;
  password_hash = elim (given input.password) [ none ↦ u.password_hash | some p ↦ some hash ];
  is_active = true;
}

unfoldable pub new_user : UpsertInput → Text → Text → ℕ → UserRow
new_user input email hash id = record {
  id = id;
  email = email;
  full_name = trim input.full_name;
  mobile = trimmed input.mobile;
  password_hash = some hash;
  user_type = internal;
  is_active = true;
  bank_id = input.bank_id;
  agent_code = none;
  failed_login_count = 0;
  locked_until = none;
  last_login_at = none;
}

unfoldable pub put_user : UpsertInput → Text → Text → Option UserRow → M ℕ
put_user input email hash none = do
  id ← fresh_id
  write (λ d. record d { users = insert (new_user input email hash id) d.users })
  return id
put_user input email hash (some existing) = do
  write (λ d. record d {
    users = update_where (λ u. u.id == existing.id) (updated_user input hash) d.users;
  })
  return existing.id

abbrev role_rows : ℕ → List Role → List UserRoleRow
role_rows id [] = []
role_rows id (r ∷ roles) = record { user_id = id; role = r } ∷ role_rows id roles

-- The roles that are known, among those that are asked for.
abbrev pub known_roles : List Role → List Role → List Role
known_roles roles known = select (λ r. includes roles r) known

unfoldable pub replace_roles : ℕ → List Role → M (Unit {0})
replace_roles id roles = do
  found ← query (λ d. known_roles roles d.roles)
  throw_if (not (nat_eq (length found) (length roles))) (not_found "Role")
  write (λ d. record d {
    user_roles = select (λ r. not (r.user_id == id)) d.user_roles ++ role_rows id found;
  })

abbrev role_data : List Role → List (String × Datum)
role_data [] = []
role_data (r ∷ roles) = ("role", role r) ∷ role_data roles

abbrev id_data : Option ℕ → Datum
id_data none = null
id_data (some n) = num n

unfoldable pub upsert_in : UpsertInput → Text → Text → Option UserRow → ℕ → M ℕ
upsert_in input email hash existing actor_id = do
  id ← put_user input email hash existing
  branch (includes input.roles States.agent) (assign_agent_code id) (return tt)
  replace_roles id input.roles
  audit_record role_granted
      (("email", txt email)
        ∷ ("bankId", id_data input.bank_id)
        ∷ ("created", flag (not (is_there existing)))
        ∷ ("passwordSet", flag (is_there (given input.password) || not (is_there existing)))
        ∷ role_data input.roles)
      (by_actor actor_id)
  return id

pub record Upserted : Type 0 where
  pub user : Option UserRow
  pub generated_password : Option Text

-- `input.password ?? generated`: an empty password is one.
abbrev pub password_or : Option Text → Option Text → Text
password_or (some password) generated = password
password_or none (some drawn) = drawn
password_or none none = []

module _ (hashing : Hashing) where
  -- A password is drawn where none is given, or an empty one.
  unfoldable pub draw_password : Option Text → M (Option Text)
  draw_password none = generate_password hashing >>= λ drawn. return (some drawn)
  draw_password (some password) = return none

  unfoldable pub upsert_user : UpsertInput → ℕ → M Upserted
  upsert_user input actor_id = do
    let email = to_lower_case (trim input.email)
    throw_if (nat_eq (length input.roles) 0) validation
    assert_bank_pairing input.roles input.bank_id
    existing ← query (λ d. first (λ u. same_email u.email email) d.users)
    generated ← draw_password (given input.password)
    hash ← hash_password hashing (password_or input.password generated)
    id ← transaction (upsert_in input email hash existing actor_id)
    user ← query (get_user id)
    return (record {
      user = user;
      generated_password =
          if is_there existing && not (is_there (given input.password)) then none else generated;
    })

  unfoldable pub reset_password : ℕ → ℕ → M Text
  reset_password id actor_id = do
    row ← query (get_user id)
    user ← or_throw row (not_found "User")
    password ← generate_password hashing
    hash ← hash_password hashing password
    write (λ d. record d {
      users =
          update_where (λ u. u.id == id)
            (λ u. record u {
              password_hash = some hash;
              locked_until = none;
              failed_login_count = 0;
            })
            d.users;
    })
    audit_record configuration_changed
        (("change", str "PASSWORD_RESET") ∷ ("email", txt user.email) ∷ []) (by_actor actor_id)
    return password

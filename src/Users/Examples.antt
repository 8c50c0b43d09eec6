-- ===== src/Users/Examples.antt =====
-- A deactivation of one of two administrators, and the theorem applied to it.
use onlineaggrement.Base.{
  ℕ, ◌≡◌, refl, true, false, [], ◌∷◌, none, some, codes, any, select, map, first, update_where,
  ℕ_eq,
}
use onlineaggrement.Errors.{conflict, not_found}
use onlineaggrement.Database.{World, empty_db, UserRow, UserRoleRow, internal}
use onlineaggrement.Service.{
  done, fail, final, ◌>>=◌, ◌>>◌, return, throw, throw_if, branch, or_throw, query, write,
}
use onlineaggrement.Audit.{audit_record}
use onlineaggrement.Workflow.States.{Role, agreement_admin, super_admin, agent}
use onlineaggrement.Users.{
  list_users, get_user, other_administrators, assert_not_last_administrator,
  assert_not_a_designated_signer, with_active, check_deactivation, store_active, set_active,
  is_signer_of,
}
use onlineaggrement.Users.Administrators.{is_active_administrator, set_active-keeps_administrator}

abbrev person : ℕ → UserRow
person id = record {
  id = id;
  email = codes "a@gtids";
  full_name = codes "A";
  mobile = none;
  password_hash = none;
  user_type = internal;
  is_active = true;
  bank_id = none;
  agent_code = none;
  failed_login_count = 0;
  locked_until = none;
  last_login_at = none;
}

abbrev holds : ℕ → Role → UserRoleRow
holds id role = record { user_id = id; role = role }

-- The users 1 and 2 administer, the user 3 does not.
abbrev office : World
office = record {
  db = record empty_db {
    users = person 1 ∷ person 2 ∷ person 3 ∷ [];
    user_roles = holds 1 super_admin ∷ holds 2 agreement_admin ∷ holds 3 agent ∷ [];
  };
  objects = [];
  now = 1000;
  next_id = 5;
}

-- What a test of a deactivation computes with.
deactivating : Unit {0}
unfolding ◌>>=◌ ◌>>◌ return throw throw_if branch or_throw query write audit_record list_users
    get_user other_administrators assert_not_last_administrator assert_not_a_designated_signer
    with_active check_deactivation store_active set_active first update_where select
deactivating = tt

abbrev after : World
unfolding deactivating
after = final (set_active 1 false 2 office)

abbrev left : UserRow
left = record (person 1) { is_active = false }

deactivated : set_active 1 false 2 office ≡ done (some left) after
unfolding deactivating
deactivated = refl

-- The administrator who is left is not deactivated.
deactivation_tests :
    (map (λ u. u.is_active) after.db.users ≡ false ∷ true ∷ true ∷ [])
    × (set_active 2 false 2 after ≡ fail (conflict (some "DEC-034")) after)
    × (set_active 9 false 2 after ≡ fail (not_found "User") after)
unfolding deactivating
deactivation_tests = (refl, refl, refl)

set_active-keeps_administrator_example :
    (any (is_active_administrator after.db) after.db.users ≡ true)
    × (select (is_signer_of 1) office.db.banks ≡ [])
set_active-keeps_administrator_example =
    set_active-keeps_administrator 1 2 office after (some left) deactivated

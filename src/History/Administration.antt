-- ===== src/History/Administration.antt =====
-- The history, for logins, links, users and banks (api/src/auth, api/src/users and
-- api/src/banks), which append to the audit log at most.
use onlineaggrement.Base.{ℕ, Bool, List, Option, none, some, Text}
use onlineaggrement.Database.{UserRow, BankRow}
use onlineaggrement.Service.Keeps.{Keeps}
use onlineaggrement.Workflow.States.{Role}
use onlineaggrement.Documents.{Platform}
use onlineaggrement.Documents.Composing.{Authoring}
use onlineaggrement.Signing.Ceremony.{ActionContext}
use onlineaggrement.Banks.{
  get_bank, check_bank, CreateBankInput, insert_bank, create_bank, UpdateBankInput,
  assert_eligible_signer, check_signer, write_bank, update_bank,
}
use onlineaggrement.Banks.Documents.{
  BankFile, insert_bank_document, deactivate, store_row, store_document, upload_in, upload_document,
}
use onlineaggrement.Users.Passwords.{Hashing, random_group, generate_password, hash_password}
use onlineaggrement.Users.{
  assert_not_last_administrator, assert_not_a_designated_signer, check_deactivation, store_active,
  set_active, UpsertInput, assign_agent_code, put_user, replace_roles, upsert_in, draw_password,
  check_bank_of, assert_bank_pairing, upsert_user, reset_password,
}
use onlineaggrement.Auth.{
  Credentials, register_failure, principal_for, refuse, open_session, admit, login_as, login,
  issue_party_access, claim_tokens, grant_session, redeem_at, redeem_party_access,
}
use onlineaggrement.History.{Follows}
use onlineaggrement.History.Steps.{steps, write-apart}
use onlineaggrement.History.Documents.{put_object-Keeps}

-- Logins and links.
register_failure-Keeps : (o : Option UserRow) → Keeps Follows (register_failure o)
unfolding register_failure
register_failure-Keeps none = search steps
register_failure-Keeps (some user) = search (steps, write-apart) depth 40

refuse-Keeps :
    (o : Option UserRow) (email : Text) (ctx : ActionContext) → Keeps Follows (refuse o email ctx)
unfolding refuse
refuse-Keeps o email ctx = search (steps, register_failure-Keeps) depth 40

module _ (credentials : Credentials) where
  open_session-Keeps :
      (user : UserRow) (email : Text) (ctx : ActionContext) (now : ℕ)
      → Keeps Follows (open_session credentials user email ctx now)
  unfolding open_session principal_for
  open_session-Keeps user email ctx now = search (steps, write-apart) depth 60

  login_as-Keeps :
      (o : Option UserRow) (ok : Bool) (email : Text) (ctx : ActionContext)
      → Keeps Follows (login_as credentials o ok email ctx)
  unfolding login_as admit
  login_as-Keeps none ok email ctx = refuse-Keeps none email ctx
  login_as-Keeps (some user) ok email ctx =
      search (steps, open_session-Keeps, refuse-Keeps) depth 60

  pub login-Keeps :
      (email password : Text) (ctx : ActionContext)
      → Keeps Follows (login credentials email password ctx)
  unfolding login
  login-Keeps email password ctx = search (steps, login_as-Keeps)

  pub issue_party_access-Keeps :
      (i party by : ℕ) (ctx : ActionContext)
      → Keeps Follows (issue_party_access credentials i party by ctx)
  unfolding issue_party_access
  issue_party_access-Keeps i party by ctx = search (steps, write-apart) depth 60

  pub redeem_party_access-Keeps :
      (token : Text) (ctx : ActionContext)
      → Keeps Follows (redeem_party_access credentials token ctx)
  unfolding redeem_party_access redeem_at claim_tokens grant_session
  redeem_party_access-Keeps token ctx = search (steps, write-apart) depth 80

-- Users.
pub set_active-Keeps :
    (id : ℕ) (is_active : Bool) (actor : ℕ) → Keeps Follows (set_active id is_active actor)
unfolding set_active check_deactivation store_active assert_not_last_administrator
    assert_not_a_designated_signer
set_active-Keeps id is_active actor = search (steps, write-apart) depth 80

put_user-Keeps :
    (input : UpsertInput) (email hash : Text) (o : Option UserRow)
    → Keeps Follows (put_user input email hash o)
unfolding put_user
put_user-Keeps input email hash none = search (steps, write-apart) depth 40
put_user-Keeps input email hash (some user) = search (steps, write-apart) depth 40

assign_agent_code-Keeps : (id : ℕ) → Keeps Follows (assign_agent_code id)
unfolding assign_agent_code
assign_agent_code-Keeps id = search (steps, write-apart) depth 40

replace_roles-Keeps : (id : ℕ) (roles : List Role) → Keeps Follows (replace_roles id roles)
unfolding replace_roles
replace_roles-Keeps id roles = search (steps, write-apart) depth 40

upsert_in-Keeps :
    (input : UpsertInput) (email hash : Text) (o : Option UserRow) (actor : ℕ)
    → Keeps Follows (upsert_in input email hash o actor)
unfolding upsert_in
upsert_in-Keeps input email hash o actor =
    search (steps, put_user-Keeps, assign_agent_code-Keeps, replace_roles-Keeps) depth 60

check_bank_of-Keeps : (o : Option ℕ) → Keeps Follows (check_bank_of o)
unfolding check_bank_of get_bank
check_bank_of-Keeps none = search steps
check_bank_of-Keeps (some id) = search steps depth 40

assert_bank_pairing-Keeps :
    (roles : List Role) (o : Option ℕ) → Keeps Follows (assert_bank_pairing roles o)
unfolding assert_bank_pairing
assert_bank_pairing-Keeps roles o = search (steps, check_bank_of-Keeps) depth 40

module _ (hashing : Hashing) where
  random_group-Keeps : Keeps Follows (random_group hashing)
  unfolding random_group
  random_group-Keeps = search steps

  generate_password-Keeps : Keeps Follows (generate_password hashing)
  unfolding generate_password
  generate_password-Keeps = search (steps, random_group-Keeps) depth 40

  hash_password-Keeps : (password : Text) → Keeps Follows (hash_password hashing password)
  unfolding hash_password
  hash_password-Keeps password = search steps depth 40

  draw_password-Keeps : (o : Option Text) → Keeps Follows (draw_password hashing o)
  unfolding draw_password
  draw_password-Keeps none = search (steps, generate_password-Keeps)
  draw_password-Keeps (some password) = search steps

  pub upsert_user-Keeps :
      (input : UpsertInput) (actor : ℕ) → Keeps Follows (upsert_user hashing input actor)
  unfolding upsert_user
  upsert_user-Keeps input actor =
      search
        (
          steps, assert_bank_pairing-Keeps, draw_password-Keeps, hash_password-Keeps,
          upsert_in-Keeps,
        )
        depth 80

  pub reset_password-Keeps : (id actor : ℕ) → Keeps Follows (reset_password hashing id actor)
  unfolding reset_password
  reset_password-Keeps id actor =
      search (steps, write-apart, generate_password-Keeps, hash_password-Keeps) depth 80

-- Banks.
check_bank-Keeps : (id : ℕ) (code name : Text) → Keeps Follows (check_bank id code name)
unfolding check_bank
check_bank-Keeps id code name = search steps depth 40

pub create_bank-Keeps :
    (input : CreateBankInput) (actor : ℕ) → Keeps Follows (create_bank input actor)
unfolding create_bank insert_bank
create_bank-Keeps input actor = search (steps, write-apart, check_bank-Keeps) depth 60

check_signer-Keeps : (o : Option ℕ) → Keeps Follows (check_signer o)
unfolding check_signer assert_eligible_signer
check_signer-Keeps none = search steps
check_signer-Keeps (some id) = search steps depth 60

pub update_bank-Keeps :
    (id : ℕ) (input : UpdateBankInput) (actor : ℕ) → Keeps Follows (update_bank id input actor)
unfolding update_bank write_bank get_bank
update_bank-Keeps id input actor =
    search (steps, write-apart, check_signer-Keeps, check_bank-Keeps) depth 80

module _ (platform : Platform) (authoring : Authoring) where
  upload_in-Keeps :
      (bank : BankRow) (file : BankFile) (converted : List ℕ) (pages actor : ℕ)
      → Keeps Follows (upload_in platform authoring bank file converted pages actor)
  unfolding upload_in store_document store_row insert_bank_document deactivate
  upload_in-Keeps bank file converted pages actor =
      search (steps, write-apart, put_object-Keeps) depth 80

  pub upload_document-Keeps :
      (id : ℕ) (file : BankFile) (actor : ℕ)
      → Keeps Follows (upload_document platform authoring id file actor)
  unfolding upload_document get_bank
  upload_document-Keeps id file actor = search (steps, upload_in-Keeps) depth 80

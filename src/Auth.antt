-- ===== src/Auth.antt =====
-- Logins and the links of external parties (api/src/auth/auth.service.ts). The hash of a password,
-- the random tokens, the digest of one and the signing of a session are parameters.
pub mod Guard
pub mod Logins
pub mod Links
mod Examples
use onlineaggrement.Base.{
  ℕ, suc, ◌+◌, ◌*◌, Bool, true, false, not, ◌&&◌, List, [], ◌∷◌, ◌++◌, Option, none, some, String,
  Text, Text_eq, codes, any, first, select, insert, update_where, includes, ltb, leb, nat_eq, ◌==◌,
  ℕ_eq, if◌then◌else◌,
}
use onlineaggrement.Errors.{forbidden, not_found}
use onlineaggrement.Database.{
  same_email, Db, UserRow, UserType, MdDelegationRow, PartyAccessTokenRow, PartyType, PartyRow, num,
  txt, login_succeeded, login_failed, party_access_issued, party_access_redeemed,
}
use onlineaggrement.Service.{
  M, ◌>>=◌, ◌>>◌, return, throw, throw_if, branch, or_throw, query, write, current_time, fresh_id,
}
use onlineaggrement.Audit.{AuditContext, audit_record}
use onlineaggrement.Workflow.States.{Role, Role_eq}
use onlineaggrement.Workflow.States
use onlineaggrement.Banks.{roles_of}
use onlineaggrement.Signing.Ceremony.{ActionContext}

abbrev pub lockout_threshold : ℕ
lockout_threshold = 5

abbrev pub lockout_ms : ℕ
lockout_ms = 15 * 60000

-- A party without an account is `party:<id>`.
pub data SessionUser : Type 0 where
  of_user of_party : ℕ → SessionUser

-- What a token says of its bearer.
pub record Session : Type 0 where
  pub user : SessionUser
  pub email : Text
  pub full_name : Text
  pub roles : List Role
  pub scoped_agreement_id : Option ℕ
  pub scoped_party_id : Option ℕ

pub record Credentials : Type 0 where
  pub compare : Text → Text → Bool
  -- The n-th token that is drawn.
  pub draw_token : ℕ → Text
  pub digest : Text → ℕ
  pub issue : Session → Text
  pub ttl_hours : ℕ

pub record LoggedIn : Type 0 where
  pub access_token : Text
  pub session : Session

abbrev audit_context : Option ℕ → Option ℕ → ActionContext → AuditContext
audit_context agreement_id actor_id ctx = record {
  agreement_id = agreement_id;
  agreement_version = none;
  actor_id = actor_id;
  ip_address = ctx.ip_address;
  user_agent = ctx.user_agent;
}

-- The hash that is compared where there is none.
abbrev pub hash_of : Option UserRow → Text
hash_of none = codes "$2a$12$invalidinvalidinvalidinvalidinvalidinvalidinvalidinvalidi"
hash_of (some u) = elim u.password_hash [
  | none ↦ codes "$2a$12$invalidinvalidinvalidinvalidinvalidinvalidinvalidinvalidi"
  | some hash ↦ hash
]

abbrev pub is_locked : ℕ → UserRow → Bool
is_locked now u = elim u.locked_until [ none ↦ false | some t ↦ ltb now t ]

abbrev pub is_external : UserRow → Bool
is_external u = elim u.user_type [ UserType.internal ↦ false | UserType.external ↦ true ]

unfoldable pub failed_once : UserRow → ℕ → UserRow → UserRow
failed_once user now u = record u {
  failed_login_count = suc user.failed_login_count;
  locked_until =
      if leb lockout_threshold (suc user.failed_login_count) then some (now + lockout_ms) else none;
}

unfoldable pub register_failure : Option UserRow → M (Unit {0})
register_failure none = return tt
register_failure (some user) = do
  now ← current_time
  write
      (λ d. record d { users = update_where (λ u. u.id == user.id) (failed_once user now) d.users })

unfoldable pub principal_for : ℕ → M Session
principal_for user_id = do
  row ← query (λ d. first (λ u. u.id == user_id) d.users)
  user ← or_throw row (not_found "User")
  roles ← query (roles_of user_id)
  return (record {
    user = of_user user.id;
    email = user.email;
    full_name = user.full_name;
    roles = roles;
    scoped_agreement_id = none;
    scoped_party_id = none;
  })

abbrev is_delegation : ℕ → ℕ → MdDelegationRow → Bool
is_delegation user_id at r =
    r.delegate_user_id == user_id
    && elim r.revoked_at [ none ↦ true | some t ↦ false ]
    && leb r.valid_from at
    && leb at r.valid_to

-- The roles with a delegation of the MD that is in force.
unfoldable pub effective_roles : ℕ → ℕ → M (List Role)
effective_roles user_id at = do
  session ← principal_for user_id
  delegated ← query (λ d. any (is_delegation user_id at) d.md_delegations)
  return (
      if delegated && not (includes session.roles States.md_delegate)
      then session.roles ++ States.md_delegate ∷ []
      else session.roles)

unfoldable pub admitted : ℕ → UserRow → UserRow
admitted now u = record u { failed_login_count = 0; locked_until = none; last_login_at = some now }

unfoldable pub refuse : Option UserRow → Text → ActionContext → M LoggedIn
refuse user email ctx = do
  register_failure user
  audit_record login_failed (("email", txt email) ∷ []) (audit_context none none ctx)
  throw (forbidden none)

module _ (credentials : Credentials) where
  unfoldable pub open_session : UserRow → Text → ActionContext → ℕ → M LoggedIn
  open_session user email ctx now = do
    write (λ d. record d { users = update_where (λ u. u.id == user.id) (admitted now) d.users })
    session ← principal_for user.id
    audit_record login_succeeded (("email", txt email) ∷ []) (audit_context none (some user.id) ctx)
    return (record { access_token = credentials.issue session; session = session })

  unfoldable pub admit : UserRow → Text → ActionContext → M LoggedIn
  admit user email ctx = do
    now ← current_time
    throw_if (is_locked now user) (forbidden none)
    throw_if (is_external user) (forbidden none)
    open_session user email ctx now

  unfoldable pub login_as :
      Option UserRow → (password_ok : Bool) → Text → ActionContext → M LoggedIn
  login_as none password_ok email ctx = refuse none email ctx
  login_as (some user) password_ok email ctx =
      branch (password_ok && user.is_active) (admit user email ctx) (refuse (some user) email ctx)

  unfoldable pub login : Text → Text → ActionContext → M LoggedIn
  login email password ctx = query (λ d. first (λ u. same_email u.email email) d.users) >>= λ user.
      login_as user (credentials.compare password (hash_of user)) email ctx

  unfoldable pub issue_party_access : (agreement_id party_id issued_by : ℕ) → ActionContext → M Text
  issue_party_access agreement_id party_id issued_by ctx = do
    row ←
        query
          (λ d. first (λ p. p.id == party_id && p.agreement_id == agreement_id) d.agreement_parties)
    party ← or_throw row (not_found "Agreement party")
    n ← fresh_id
    now ← current_time
    write (λ d. record d {
      party_access_tokens =
          insert
            (record {
              agreement_id = agreement_id;
              party_id = party_id;
              token_hash = credentials.digest (credentials.draw_token n);
              expires_at = now + credentials.ttl_hours * 3600000;
              used_at = none;
              issued_to_ip = ctx.ip_address;
              issued_by = issued_by;
            })
            d.party_access_tokens;
    })
    audit_record party_access_issued
        (("partyId", num party_id)
          ∷ ("expiresAt", num (now + credentials.ttl_hours * 3600000))
          ∷ [])
        (audit_context (some agreement_id) (some issued_by)
          (record { ip_address = ctx.ip_address; user_agent = none }))
    return (credentials.draw_token n)

abbrev pub is_unused : PartyAccessTokenRow → Bool
is_unused r = elim r.used_at [ none ↦ true | some t ↦ false ]

unfoldable pub is_claimable : ℕ → ℕ → PartyAccessTokenRow → Bool
is_claimable hash now r = r.token_hash == hash && is_unused r && ltb now r.expires_at

-- One statement: the rows that are claimed are those that it updates.
unfoldable pub claim_tokens : ℕ → ℕ → M (List PartyAccessTokenRow)
claim_tokens hash now = do
  claimed ← query (λ d. select (is_claimable hash now) d.party_access_tokens)
  write (λ d. record d {
    party_access_tokens =
        update_where (is_claimable hash now) (λ r. record r { used_at = some now })
          d.party_access_tokens;
  })
  return claimed

abbrev role_of_party : PartyType → Role
role_of_party PartyType.agent = States.agent
role_of_party PartyType.employee = States.employee
role_of_party PartyType.md = States.md
role_of_party PartyType.accounts = States.auditor

abbrev session_user : PartyRow → SessionUser
session_user p = elim p.user_id [ none ↦ of_party p.id | some id ↦ of_user id ]

unfoldable pub party_session : PartyAccessTokenRow → PartyRow → Session
party_session grant p = record {
  user = session_user p;
  email = p.email;
  full_name = p.name;
  roles = role_of_party p.party_type ∷ [];
  scoped_agreement_id = some grant.agreement_id;
  scoped_party_id = some p.id;
}

module _ (credentials : Credentials) where
  unfoldable pub grant_session : PartyAccessTokenRow → ActionContext → M LoggedIn
  grant_session grant ctx = do
    row ← query (λ d. first (λ p. p.id == grant.party_id) d.agreement_parties)
    party ← or_throw row (not_found "Agreement party")
    audit_record party_access_redeemed (("partyId", num party.id) ∷ [])
        (audit_context (some grant.agreement_id) party.user_id ctx)
    return (record {
      access_token = credentials.issue (party_session grant party);
      session = party_session grant party;
    })

  unfoldable pub redeem_at : (hash : ℕ) → ActionContext → (now : ℕ) → M LoggedIn
  redeem_at hash ctx now = do
    claimed ← claim_tokens hash now
    grant ← or_throw (first (λ r. true) claimed) (forbidden none)
    grant_session grant ctx

  unfoldable pub redeem_party_access : Text → ActionContext → M LoggedIn
  redeem_party_access token ctx = current_time >>= redeem_at (credentials.digest token) ctx

-- ===== src/Auth/Examples.antt =====
-- A login after four wrong passwords and after five, a link that is redeemed, and the theorems
-- applied to them.
use onlineaggrement.Base.{
  ◌+◌, ◌<◌, arith, ℕ, ◌≡◌, ◌≤◌, refl, true, false, [], ◌∷◌, Option, none, some, Text, Text_eq,
  codes, length, map, first, select, update_where, ◌==◌, ℕ_eq,
}
use onlineaggrement.Errors.{forbidden}
use onlineaggrement.Database.{
  same_email, World, empty_db, UserRow, UserType, PartyType, PartyAccessTokenRow,
}
use onlineaggrement.Service.{
  done, fail, final, ◌>>=◌, ◌>>◌, return, throw, throw_if, branch, or_throw, query, write,
  current_time, fresh_id,
}
use onlineaggrement.Audit.{audit_record}
use onlineaggrement.Workflow.States
use onlineaggrement.Workflow.States.{Role}
use onlineaggrement.Banks.{roles_of}
use onlineaggrement.Signing.Ceremony.{ActionContext}
use onlineaggrement.Signing.Worlds.{signer}
use onlineaggrement.Auth.{
  SessionUser, Credentials, LoggedIn, hash_of, is_locked, is_external, failed_once,
  register_failure, principal_for, admitted, refuse, open_session, admit, login_as, login,
  is_claimable, claim_tokens, party_session, grant_session, redeem_at, redeem_party_access,
}
use onlineaggrement.Auth.Guard.{Verdict, Refusal, Route, can_activate}
use onlineaggrement.Auth.Logins.{login-admits}
use onlineaggrement.Auth.Links.{redeem_party_access-once}

-- A hash is the password, and the digest of a token its length.
abbrev credentials : Credentials
credentials = record {
  compare = λ plain hash. plain == hash;
  draw_token = λ n. codes "t";
  digest = length;
  issue = λ s. codes "jwt";
  ttl_hours = 72;
}

abbrev client : ActionContext
client = record { ip_address = none; user_agent = none }

abbrev person : (failures : ℕ) → UserRow
person failures = record {
  id = 1;
  email = codes "a@gtids";
  full_name = codes "A";
  mobile = none;
  password_hash = some (codes "secret");
  user_type = UserType.internal;
  is_active = true;
  bank_id = none;
  agent_code = none;
  failed_login_count = failures;
  locked_until = none;
  last_login_at = none;
}

abbrev link : PartyAccessTokenRow
link = record {
  agreement_id = 7;
  party_id = 3;
  token_hash = 1;
  expires_at = 5000;
  used_at = none;
  issued_to_ip = none;
  issued_by = 1;
}

abbrev office : ℕ → World
office failures = record {
  db = record empty_db {
    users = person failures ∷ [];
    user_roles = record { user_id = 1; role = States.employee } ∷ [];
    agreement_parties = signer PartyType.agent ∷ [];
    party_access_tokens = link ∷ [];
  };
  objects = [];
  now = 1000;
  next_id = 5;
}

-- What a test of a session computes with.
sessions : Unit {0}
unfolding ◌>>=◌ ◌>>◌ return throw throw_if branch or_throw query write current_time fresh_id
    audit_record failed_once register_failure principal_for admitted refuse open_session admit
    login_as login is_claimable claim_tokens party_session grant_session redeem_at
    redeem_party_access first select update_where can_activate
sessions = tt

abbrev log_in : Text → World → World
unfolding sessions
log_in password w = final (login credentials (codes "A@gtids") password client w)

abbrev session : LoggedIn
session = record {
  access_token = codes "jwt";
  session = record {
    user = SessionUser.of_user 1;
    email = codes "a@gtids";
    full_name = codes "A";
    roles = States.employee ∷ [];
    scoped_agreement_id = none;
    scoped_party_id = none;
  };
}

logged_in :
    login credentials (codes "A@gtids") (codes "secret") client (office 4)
    ≡ done session (log_in (codes "secret") (office 4))
unfolding sessions
logged_in = refl

-- The fifth wrong password locks the account, the right one does not open it then, and it does once
-- the time is over.
lockout_tests :
    (map (λ u. u.locked_until) (log_in (codes "x") (office 3)).db.users ≡ none ∷ [])
    × (map (λ u. u.locked_until) (log_in (codes "x") (office 4)).db.users ≡ some 901000 ∷ [])
    × (login credentials (codes "A@gtids") (codes "secret") client (log_in (codes "x") (office 4))
        ≡ fail (forbidden none) (log_in (codes "x") (office 4)))
    × (map
          (λ u. u.failed_login_count)
          (log_in
            (codes "secret")
            (record (log_in (codes "x") (office 4)) { now = 901000 })).db.users
        ≡ 0 ∷ [])
unfolding sessions
lockout_tests = (refl, refl, refl, refl)

login-admits_example :
    (user : UserRow) × (first (λ u. same_email u.email (codes "A@gtids")) (office 4).db.users
      ≡ some user)
    × (credentials.compare (codes "secret") (hash_of (some user)) ≡ true)
    × (user.is_active ≡ true)
    × (is_locked 1000 user ≡ false)
    × (is_external user ≡ false)
    × (session.session.roles ≡ roles_of user.id (office 4).db)
    × (session.session.scoped_agreement_id ≡ none)
login-admits_example =
    login-admits credentials (codes "A@gtids") (codes "secret") client (office 4)
      (log_in (codes "secret") (office 4)) session logged_in

abbrev scoped : LoggedIn
unfolding sessions
scoped = record {
  access_token = codes "jwt";
  session = party_session link (signer PartyType.agent);
}

abbrev redeemed : World
unfolding sessions
redeemed = final (redeem_party_access credentials (codes "t") client (office 0))

redeemed_link : redeem_party_access credentials (codes "t") client (office 0) ≡ done scoped redeemed
unfolding sessions
redeemed_link = refl

-- An hour later, when another link has been issued.
abbrev an_hour_later : World
an_hour_later = record {
  db = record redeemed.db {
    party_access_tokens = record link { token_hash = 2 } ∷ redeemed.db.party_access_tokens;
  };
  objects = [];
  now = redeemed.now + 3600000;
  next_id = 1000;
}

same_links :
    (redeemed.now ≤ an_hour_later.now)
    × (select (λ r. r.token_hash == 1) an_hour_later.db.party_access_tokens
        ≡ select (λ r. r.token_hash == 1) redeemed.db.party_access_tokens)
unfolding sessions redeemed
same_links = (omega arith, refl)

redeem_party_access-once_example :
    ((grant : PartyAccessTokenRow) × (first
          (λ r. is_claimable 1 1000 r)
          (office 0).db.party_access_tokens
        ≡ some grant)
      × (grant.token_hash ≡ 1)
      × (grant.used_at ≡ none)
      × (1000 < grant.expires_at)
      × (scoped.session.scoped_agreement_id ≡ some grant.agreement_id)
      × (scoped.session.scoped_party_id ≡ some grant.party_id))
    × ((u : World) × (redeem_party_access credentials (codes "t") client an_hour_later
          ≡ fail (forbidden none) u)
        × (u.db.party_access_tokens ≡ an_hour_later.db.party_access_tokens))
redeem_party_access-once_example =
    redeem_party_access-once credentials (codes "t") client client (office 0) redeemed an_hour_later
      scoped redeemed_link same_links.0 same_links.1

abbrev route : Option ℕ → Route
route requested = record {
  is_public = false;
  required = States.agent ∷ [];
  requested_id = requested;
}

-- The session of a link is for its agreement alone.
guard_tests :
    (can_activate (λ t. some scoped.session) (route (some 7)) (some (codes "jwt"))
      ≡ Verdict.allowed scoped.session)
    × (can_activate (λ t. some scoped.session) (route (some 8)) (some (codes "jwt"))
        ≡ Verdict.refused Refusal.forbidden)
    × (can_activate (λ t. some session.session) (route none) (some (codes "jwt"))
        ≡ Verdict.refused Refusal.forbidden)
    × (can_activate (λ t. none) (route none) (some (codes "jwt"))
        ≡ Verdict.refused Refusal.unauthorized)
unfolding sessions
guard_tests = (refl, refl, refl, refl)

-- ===== src/Auth/Guard.antt =====
-- The guard of every request (canActivate of api/src/auth/auth.guard.ts).
use onlineaggrement.Base.{
  ℕ, Bool, true, false, not, ◌&&◌, List, Option, none, some, Text, any, includes, length, ltb, ◌==◌,
  ℕ_eq,
}
use onlineaggrement.Workflow.States.{Role, Role_eq}
use onlineaggrement.Auth.{Session}

pub data Refusal : Type 0 where
  unauthorized forbidden : Refusal

pub data Verdict : Type 0 where
  open_to_all : Verdict
  allowed : Session → Verdict
  refused : Refusal → Verdict

-- What the handler asks for, and what the request names.
pub record Route : Type 0 where
  pub is_public : Bool
  pub required : List Role
  pub requested_id : Option ℕ

abbrev pub lacks_role : List Role → Session → Bool
lacks_role required session =
    ltb 0 (length required) && not (any (λ r. includes session.roles r) required)

abbrev pub is_elsewhere : Option ℕ → Option ℕ → Bool
is_elsewhere none requested = false
is_elsewhere (some scoped) none = false
is_elsewhere (some scoped) (some requested) = not (requested == scoped)

abbrev check_session : Route → Session → Verdict
check_session route session = elim (lacks_role route.required session) [
  | true ↦ refused forbidden
  | false ↦ elim (is_elsewhere session.scoped_agreement_id route.requested_id) [
    | true ↦ refused forbidden
    | false ↦ allowed session
  ]
]

abbrev check_token : Route → Option Session → Verdict
check_token route none = refused unauthorized
check_token route (some session) = check_session route session

abbrev check_header : (Text → Option Session) → Route → Option Text → Verdict
check_header verify route none = refused unauthorized
check_header verify route (some token) = check_token route (verify token)

-- The bearer token of the request, which `verify` reads.
unfoldable pub can_activate : (Text → Option Session) → Route → Option Text → Verdict
can_activate verify route token = elim route.is_public [
  | true ↦ open_to_all
  | false ↦ check_header verify route token
]

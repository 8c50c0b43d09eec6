-- ===== src/Signing/Parties.antt =====
-- What differs between the signing parties (SIGNING_PARTY and assertActorIsParty of
-- api/src/signing/signing.service.ts, party of api/src/agreements/agreements.service.ts).
use onlineaggrement.Base.{
  ℕ, Bool, false, ◌&&◌, ◌||◌, List, [], ◌∷◌, Option, none, some, String, Text, Text_eq,
  to_lower_case, first, nat_eq, ◌==◌, ℕ_eq, if◌then◌else◌,
}
use onlineaggrement.Errors.{not_found, forbidden, other_error, Result, ok, err}
use onlineaggrement.Database.{
  PartyType, PartyRow, NotificationEvent, AuditEvent, agent_sign_initiated, employee_sign_initiated,
  md_sign_initiated,
}
use onlineaggrement.Service.{M, ◌>>=◌, query, or_throw}
use onlineaggrement.Workflow.States.{
  AgreementState, AgreementState_eq, agent_signing, employee_signing, md_signing, WorkflowAction,
  agent_sign_initiate, agent_sign_succeed, agent_sign_fail, employee_sign_initiate,
  employee_sign_succeed, employee_sign_fail, md_sign_initiate, md_sign_succeed, md_sign_fail,
  advance_to_employee, advance_to_md, Role,
}
use onlineaggrement.Workflow.Rules.{SigningParty, agent_party, employee_party, md_party}
use onlineaggrement.Documents.Storage.{party_index}

pub record SigningPartySpec : Type 0 where
  pub initiate : WorkflowAction
  pub succeed : WorkflowAction
  pub fail : WorkflowAction
  pub signing_state : AgreementState
  -- The action once the signature is there; `none` where it completes the agreement.
  pub advance : Option WorkflowAction
  pub initiated_event : AuditEvent
  pub signed_event : AuditEvent
  pub reason : String
  pub signatures_before : ℕ
  pub notify_on_signed : Option (NotificationEvent × List PartyType)

abbrev pub signing_party : SigningParty → SigningPartySpec
signing_party agent_party = record {
  initiate = agent_sign_initiate;
  succeed = agent_sign_succeed;
  fail = agent_sign_fail;
  signing_state = agent_signing;
  advance = some advance_to_employee;
  initiated_event = agent_sign_initiated;
  signed_event = AuditEvent.agent_signed;
  reason = "Agent execution";
  signatures_before = 0;
  notify_on_signed = some (NotificationEvent.agent_signed, PartyType.employee ∷ []);
}
signing_party employee_party = record {
  initiate = employee_sign_initiate;
  succeed = employee_sign_succeed;
  fail = employee_sign_fail;
  signing_state = employee_signing;
  advance = some advance_to_md;
  initiated_event = employee_sign_initiated;
  signed_event = AuditEvent.employee_signed;
  reason = "Verified and executed on behalf of GTIDS";
  signatures_before = 1;
  notify_on_signed = some (NotificationEvent.employee_signed, PartyType.md ∷ []);
}
signing_party md_party = record {
  initiate = md_sign_initiate;
  succeed = md_sign_succeed;
  fail = md_sign_fail;
  signing_state = md_signing;
  advance = none;
  initiated_event = md_sign_initiated;
  signed_event = AuditEvent.md_signed;
  reason = "Final execution on behalf of GTIDS";
  signatures_before = 2;
  notify_on_signed = none;
}

-- `SIGNING_PARTY[party.party_type]`
abbrev pub signing_party_of : PartyType → Option SigningParty
signing_party_of PartyType.agent = some agent_party
signing_party_of PartyType.employee = some employee_party
signing_party_of PartyType.md = some md_party
signing_party_of PartyType.accounts = none

-- The party whose signing state it is.
unfoldable pub party_at : AgreementState → Option SigningParty
party_at s =
    if s == agent_signing
    then some agent_party
    else if s == employee_signing
    then some employee_party
    else if s == md_signing
    then some md_party
    else none

pub record Principal : Type 0 where
  pub user_id : ℕ
  pub email : Text
  pub roles : List Role
  pub scoped_party_id : Option ℕ

abbrev is_user : Option ℕ → ℕ → Bool
is_user none user_id = false
is_user (some i) user_id = i == user_id

-- A scoped session is judged by its party alone.
unfoldable pub assert_actor_is_party : Principal → PartyRow → Result (Unit {0})
assert_actor_is_party actor party = elim actor.scoped_party_id [
  | some scoped ↦ if scoped == party.id then ok tt else err (forbidden (some "BR-001"))
  | none ↦
      if is_user party.user_id actor.user_id
        || to_lower_case party.email == to_lower_case actor.email
      then ok tt
      else err (forbidden (some "BR-001"))
]

-- The party of a kind on an agreement.
unfoldable pub party : ℕ → PartyType → M PartyRow
party agreement_id kind =
    query (λ d.
      first
        (λ p.
          p.agreement_id == agreement_id && nat_eq (party_index p.party_type) (party_index kind))
        d.agreement_parties)
    >>= λ row. or_throw row (not_found "party for agreement")

-- `agreement_parties.where('id', …).first()`: a row that is not there has no columns.
unfoldable pub party_by_id : ℕ → M PartyRow
party_by_id id = query (λ d. first (λ p. p.id == id) d.agreement_parties) >>= λ row.
    or_throw row (other_error "TypeError")

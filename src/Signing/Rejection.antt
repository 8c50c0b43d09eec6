-- ===== src/Signing/Rejection.antt =====
-- Rejection by the employee or the MD (reject of api/src/signing/signing.service.ts).
use onlineaggrement.Base.{ℕ, Bool, if◌then◌else◌, [], ◌∷◌, none, some, Text, includes}
use onlineaggrement.Database.{
  AgreementRow, PartyType, txt, str, SignatureEventType, NotificationEvent, user, md_rejected,
}
use onlineaggrement.Service.{M, ◌>>=◌, ◌>>◌, return, current_time, transaction}
use onlineaggrement.Workflow.States.{
  AgreementState, AgreementState_eq, pending_employee_signature, employee_signing, WorkflowAction,
  employee_reject, reject,
}
use onlineaggrement.Workflow.Service.{TransitionRequest, no_patch, get_agreement, transition_in}
use onlineaggrement.Documents.{current_version}
use onlineaggrement.Notifications.{enqueue}
use onlineaggrement.Signing.Parties.{Principal, party}
use onlineaggrement.Signing.Ceremony.{ActionContext, add_signature_event}

pub record RejectParams : Type 0 where
  pub agreement_id : ℕ
  pub reason : Text
  pub actor : Principal

-- The states in which the employee rejects; in all others the edge of the MD is asked for.
unfoldable pub by_employee : AgreementState → Bool
by_employee status = includes (pending_employee_signature ∷ employee_signing ∷ []) status

unfoldable pub reject_action : AgreementState → WorkflowAction
reject_action status = if by_employee status then employee_reject else reject

unfoldable pub rejecting_party : AgreementState → PartyType
rejecting_party status = if by_employee status then PartyType.employee else PartyType.md

unfoldable pub reject_transition :
    RejectParams → ActionContext → AgreementRow → (now : ℕ) → TransitionRequest
reject_transition params ctx agreement now = record {
  agreement_id = agreement.id;
  action = reject_action agreement.status;
  actor_id = some params.actor.user_id;
  actor_roles = params.actor.roles;
  trigger = user;
  reason = some params.reason;
  audit_event = some md_rejected;
  audit_data = [];
  ip_address = ctx.ip_address;
  user_agent = ctx.user_agent;
  patch = record no_patch {
    rejected_reason = some (some params.reason);
    rejected_by = some (some params.actor.user_id);
    rejected_at = some (some now);
    expires_at = some none;
  };
}

unfoldable pub reject_in :
    RejectParams → ActionContext → AgreementRow → (party_id : ℕ) → M (Unit {0})
reject_in params ctx agreement party_id = do
  version ← current_version agreement.id agreement.current_version
  add_signature_event (record {
    agreement_id = agreement.id;
    party_id = party_id;
    agreement_version = agreement.current_version;
    event_type = SignatureEventType.rejected;
    document_hash = version.document_hash;
    esign_transaction_id = none;
  })
  now ← current_time
  transition_in (reject_transition params ctx agreement now)
  enqueue (record {
    agreement_id = agreement.id;
    event_type = NotificationEvent.rejected;
    recipients = PartyType.agent ∷ [];
    payload = ("reason", txt params.reason) ∷ ("rejectedBy", str "MD") ∷ [];
  })
  return tt

-- Which edge applies follows from the state that was read, not from who asks.
unfoldable pub reject_agreement : RejectParams → ActionContext → M (Unit {0})
reject_agreement params ctx = do
  agreement ← get_agreement params.agreement_id
  row ← party agreement.id (rejecting_party agreement.status)
  transaction (reject_in params ctx agreement row.id)

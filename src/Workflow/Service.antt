-- ===== src/Workflow/Service.antt =====
-- WorkflowService of api/src/workflow/workflow.service.ts: the one component that writes the
-- status of an agreement. A method with `_in` joins the caller's transaction.
pub mod Moves
pub mod Laws
use onlineaggrement.Base.{
  ℕ, zero, suc, ◌+◌, ◌*◌, ◌<◌, Bool, true, false, not, ◌&&◌, List, [], ◌∷◌, ◌++◌, Option, none,
  some, String, Text, map, select, includes, length, ltb, first, update_where, insert, ◌==◌, ℕ_eq,
  if◌then◌else◌,
}
use onlineaggrement.Errors.{not_found, conflict, other_error}
use onlineaggrement.Database.{
  Db, World, AgreementRow, violates, WorkflowTransitionRow, StageSlaRow, AgreementVersionRow,
  unsigned, VersionHistoryRow, EsignTransactionRow, EsignStatus, initiated, pending_signer,
  cancelled, Datum, null, num, str, txt, status, act, Trigger, user, AuditEvent,
  agreement_corrected, state_event,
}
use onlineaggrement.Service.{
  M, ◌>>=◌, ◌>>◌, return, throw_if, or_throw, branch, from_result, query, write, current_time,
  transaction,
}
use onlineaggrement.Audit.{audit_record}
use onlineaggrement.Workflow.States.{
  AgreementState, AgreementState_eq, completed, rejected, expired, WorkflowAction, correct, Role,
}
use onlineaggrement.Workflow.States
use onlineaggrement.Workflow.Rules.{TransitionOutcome, assert_transition, pending_action_states}

-- The columns that a caller adds to a transition: `none` is a column that is not named.
pub record Patch : Type 0 where
  pub current_version : Option ℕ
  pub rejected_reason : Option (Option Text)
  pub rejected_by : Option (Option ℕ)
  pub rejected_at : Option (Option ℕ)
  pub expires_at : Option (Option ℕ)
  pub completed_at : Option (Option ℕ)
  pub verification_token : Option (Option Text)
  pub execution_reference : Option (Option Text)

abbrev pub no_patch : Patch
no_patch = record {
  current_version = none;
  rejected_reason = none;
  rejected_by = none;
  rejected_at = none;
  expires_at = none;
  completed_at = none;
  verification_token = none;
  execution_reference = none;
}

pub record TransitionRequest : Type 0 where
  pub agreement_id : ℕ
  pub action : WorkflowAction
  pub actor_id : Option ℕ
  pub actor_roles : List Role
  pub trigger : Trigger
  pub reason : Option Text
  pub audit_event : Option AuditEvent
  pub audit_data : List (String × Datum)
  pub ip_address : Option String
  pub user_agent : Option String
  pub patch : Patch

abbrev pub over {ℓ} : {A : Type ℓ} → Option A → A → A
over none a = a
over (some b) a = b

-- The row after the update: `expires` is the deadline that the patch ends up with.
unfoldable pub patched :
    TransitionRequest → TransitionOutcome → ℕ → Option (Option ℕ) → AgreementRow → AgreementRow
patched req outcome now expires r = record r {
  status = outcome.dst;
  row_version = suc r.row_version;
  updated_at = now;
  current_version = over req.patch.current_version r.current_version;
  rejected_reason = over req.patch.rejected_reason r.rejected_reason;
  rejected_by = over req.patch.rejected_by r.rejected_by;
  rejected_at = over req.patch.rejected_at r.rejected_at;
  expires_at = over expires r.expires_at;
  completed_at = over req.patch.completed_at r.completed_at;
  verification_token = over req.patch.verification_token r.verification_token;
  execution_reference = over req.patch.execution_reference r.execution_reference;
}

-- `SELECT … FOR UPDATE`
unfoldable pub lock_agreement : ℕ → M AgreementRow
lock_agreement agreement_id = query (λ d. first (λ r. r.id == agreement_id) d.agreements) >>= λ row.
    or_throw row (not_found "Agreement")

unfoldable pub get_agreement : ℕ → M AgreementRow
get_agreement agreement_id = query (λ d. first (λ r. r.id == agreement_id) d.agreements) >>= λ row.
    or_throw row (not_found "Agreement")

abbrev pub ms_per_day : ℕ
ms_per_day = 86400000

unfoldable pub add_days : ℕ → ℕ → ℕ
add_days date days = date + days * ms_per_day

abbrev sla_days_of : Option StageSlaRow → ℕ
sla_days_of none = 14
sla_days_of (some r) = r.sla_days

unfoldable pub sla_deadline : ℕ → AgreementState → M ℕ
sla_deadline agreement_type_id stage = do
  sla ←
      query (λ d.
        first (λ r. r.agreement_type_id == agreement_type_id && r.stage == stage) d.stage_slas)
  now ← current_time
  return (add_days now (sla_days_of sla))

abbrev is_none {ℓ} : {A : Type ℓ} → Option A → Bool
is_none none = true
is_none (some _) = false

-- The SLA clock restarts whenever the agreement lands on a human.
unfoldable pub restarts_sla : TransitionRequest → TransitionOutcome → Bool
restarts_sla req outcome =
    includes pending_action_states outcome.dst && is_none req.patch.expires_at

unfoldable pub restart_sla :
    TransitionRequest → TransitionOutcome → AgreementRow → M (Option (Option ℕ))
restart_sla req outcome agreement =
    branch (restarts_sla req outcome)
      (sla_deadline agreement.agreement_type_id outcome.dst >>= λ deadline.
        return (some (some deadline)))
      (return req.patch.expires_at)

-- `UPDATE … WHERE q … RETURNING *`
unfoldable pub update_agreements :
    (AgreementRow → Bool) → (AgreementRow → AgreementRow) → M (List AgreementRow)
update_agreements q f = do
  before ← query (λ d. select q d.agreements)
  write (λ d. record d { agreements = update_where q f d.agreements })
  return (map f before)

abbrev first_row {ℓ} : {A : Type ℓ} → List A → Option A
first_row [] = none
first_row (x ∷ xs) = some x

unfoldable pub transition_row :
    TransitionRequest → TransitionOutcome → AgreementRow → WorkflowTransitionRow
transition_row req outcome agreement = record {
  agreement_id = agreement.id;
  agreement_version = agreement.current_version;
  from_state = outcome.src;
  to_state = outcome.dst;
  actor_id = req.actor_id;
  trigger = req.trigger;
  reason = req.reason;
}

abbrev reason_data : Option Text → List (String × Datum)
reason_data none = []
reason_data (some reason) = if ltb 0 (length reason) then ("reason", txt reason) ∷ [] else []

-- The update throws where the row breaks a constraint of the table.
unfoldable pub transition_in : TransitionRequest → M AgreementRow
transition_in req = do
  agreement ← lock_agreement req.agreement_id
  outcome ← from_result (assert_transition agreement.status req.action req.actor_roles req.reason)
  now ← current_time
  expires ← restart_sla req outcome agreement
  throw_if (violates (patched req outcome now expires agreement)) (other_error "check_violation")
  updated ←
      update_agreements (λ r. r.id == agreement.id && r.row_version == agreement.row_version)
        (patched req outcome now expires)
  row ← or_throw (first_row updated) (conflict none)
  write (λ d. record d {
    workflow_transitions = insert (transition_row req outcome agreement) d.workflow_transitions;
  })
  audit_record (over req.audit_event (state_event outcome.dst))
      (("from", status outcome.src)
          ∷ ("to", status outcome.dst)
          ∷ ("action", act req.action)
          ∷ ("rule", str outcome.rule)
          ∷ reason_data req.reason
        ++ req.audit_data)
      (record {
        agreement_id = some agreement.id;
        agreement_version = some agreement.current_version;
        actor_id = req.actor_id;
        ip_address = req.ip_address;
        user_agent = req.user_agent;
      })
  return row

unfoldable pub transition : TransitionRequest → M AgreementRow
transition req = transaction (transition_in req)

-- ===== src/Workflow/Rules.antt =====
-- The transition table of api/src/workflow/state-machine.ts and the gate that reads it.
use onlineaggrement.Base.{
  Bool, true, false, not, ◌&&◌, ◌||◌, List, [], ◌∷◌, Option, none, some, String, any, select,
  includes, length, ltb, Text, trim, if◌then◌else◌,
}
use onlineaggrement.Errors.{forbidden, invalid_transition, Result, ok, err}
use onlineaggrement.Workflow.States.{
  AgreementState, draft, ready_for_agent_signature, agent_signing, agent_signed,
  pending_employee_approval, employee_approving, employee_approved, pending_employee_signature,
  employee_signing, employee_signed, pending_md_signature, md_signing, completed, rejected,
  cancelled, expired, signature_failed, AgreementState_eq, WorkflowAction, workflow_actions,
  generate, agent_sign_initiate, agent_sign_succeed, agent_sign_fail, advance_to_employee,
  employee_sign_initiate, employee_sign_succeed, employee_sign_fail, advance_to_md,
  md_sign_initiate, md_sign_succeed, md_sign_fail, retry_agent_signature, retry_employee_signature,
  retry_md_signature, reject, employee_reject, cancel, expire, correct, Role, super_admin,
  agreement_admin, agent, employee, md, md_delegate, system, Role_eq,
}

pub record TransitionRule : Type 0 where
  pub sources : List AgreementState
  pub target : AgreementState
  pub roles : List Role
  pub rule : String
  pub requires_reason : Bool

abbrev edge : List AgreementState → AgreementState → List Role → String → TransitionRule
edge sources target roles rule = record {
  sources = sources;
  target = target;
  roles = roles;
  rule = rule;
  requires_reason = false;
}

unfoldable pub transitions : WorkflowAction → TransitionRule
transitions generate =
    edge (draft ∷ []) ready_for_agent_signature (agent ∷ agreement_admin ∷ super_admin ∷ [])
      "FR-009"
transitions agent_sign_initiate =
    edge (ready_for_agent_signature ∷ []) agent_signing (agent ∷ []) "FR-011 / BR-001"
transitions agent_sign_succeed = edge (agent_signing ∷ []) agent_signed (system ∷ []) "FR-011"
transitions agent_sign_fail = edge (agent_signing ∷ []) signature_failed (system ∷ []) "FR-011"
transitions advance_to_employee =
    edge (agent_signed ∷ []) pending_employee_signature (system ∷ []) "FR-012 / DEC-033"
transitions employee_sign_initiate =
    edge (pending_employee_signature ∷ []) employee_signing (employee ∷ []) "FR-012 / BR-002"
transitions employee_sign_succeed =
    edge (employee_signing ∷ []) employee_signed (system ∷ []) "FR-012"
transitions employee_sign_fail =
    edge (employee_signing ∷ []) signature_failed (system ∷ []) "FR-012"
transitions advance_to_md =
    edge (employee_signed ∷ []) pending_md_signature (system ∷ []) "FR-013 / DEC-033"
transitions md_sign_initiate =
    edge (pending_md_signature ∷ []) md_signing (md ∷ md_delegate ∷ []) "FR-013 / BR-003"
transitions md_sign_succeed = edge (md_signing ∷ []) completed (system ∷ []) "FR-016 / BR-007"
transitions md_sign_fail = edge (md_signing ∷ []) signature_failed (system ∷ []) "FR-013"
transitions retry_agent_signature =
    edge (signature_failed ∷ []) ready_for_agent_signature
      (agent ∷ agreement_admin ∷ super_admin ∷ []) "SRS v1.1 §A8"
transitions retry_employee_signature =
    edge (signature_failed ∷ []) pending_employee_signature
      (employee ∷ agreement_admin ∷ super_admin ∷ []) "SRS v1.1 §A8"
transitions retry_md_signature =
    edge (signature_failed ∷ []) pending_md_signature
      (md ∷ md_delegate ∷ agreement_admin ∷ super_admin ∷ []) "SRS v1.1 §A8"
transitions reject = record {
  sources = pending_md_signature ∷ md_signing ∷ [];
  target = rejected;
  roles = md ∷ md_delegate ∷ [];
  rule = "FR-015";
  requires_reason = true;
}
transitions employee_reject = record {
  sources = pending_employee_signature ∷ employee_signing ∷ [];
  target = rejected;
  roles = employee ∷ [];
  rule = "FR-015 / DEC-033";
  requires_reason = true;
}
transitions cancel = record {
  sources =
      draft ∷ ready_for_agent_signature ∷ agent_signing ∷ agent_signed ∷ pending_employee_approval
      ∷ employee_approving ∷ employee_approved ∷ pending_employee_signature ∷ employee_signing
      ∷ employee_signed ∷ pending_md_signature ∷ md_signing ∷ signature_failed ∷ [];
  target = cancelled;
  roles = agreement_admin ∷ super_admin ∷ [];
  rule = "SRS v1.1 §A8";
  requires_reason = true;
}
transitions expire =
    edge
      (ready_for_agent_signature ∷ agent_signing ∷ pending_employee_signature ∷ employee_signing
        ∷ pending_md_signature ∷ md_signing ∷ signature_failed ∷ [])
      expired (system ∷ []) "FR-021"
transitions correct =
    edge (rejected ∷ expired ∷ []) draft (agent ∷ agreement_admin ∷ super_admin ∷ [])
      "FR-015a / BR-004"

abbrev pub absolutely_terminal : List AgreementState
absolutely_terminal = completed ∷ cancelled ∷ []

abbrev pub version_terminal : List AgreementState
version_terminal = rejected ∷ expired ∷ []

unfoldable pub is_terminal : AgreementState → Bool
is_terminal s = includes absolutely_terminal s || includes version_terminal s

abbrev pub pending_action_states : List AgreementState
pending_action_states =
    ready_for_agent_signature ∷ pending_employee_signature ∷ pending_md_signature ∷ []

pub record TransitionOutcome : Type 0 where
  pub src : AgreementState
  pub dst : AgreementState
  pub action : WorkflowAction
  pub rule : String

-- `!opts.reason || opts.reason.trim().length < 10`; an empty text trims to an empty text.
unfoldable pub lacks_reason : Option Text → Bool
lacks_reason none = true
lacks_reason (some reason) = ltb (length (trim reason)) 10

-- `rule.roles.some((r) => actorRoles.includes(r))`
unfoldable pub permits : WorkflowAction → List Role → Bool
permits action actor_roles = any (λ r. includes actor_roles r) (transitions action).roles

-- The test for a missing rule has no counterpart: every action has one.
unfoldable pub assert_transition :
    AgreementState → WorkflowAction → List Role → Option Text → Result TransitionOutcome
assert_transition src action actor_roles reason =
    let rule = transitions action in
    if not (includes rule.sources src)
    then err (invalid_transition src rule.target rule.rule)
    else if not (permits action actor_roles)
    then err (forbidden (some rule.rule))
    else if rule.requires_reason && lacks_reason reason
    then err (forbidden (some rule.rule))
    else ok (record { src = src; dst = rule.target; action = action; rule = rule.rule })

unfoldable pub available_actions : AgreementState → List Role → List WorkflowAction
available_actions src actor_roles =
    select (λ action. includes (transitions action).sources src && permits action actor_roles)
      workflow_actions

pub data SigningParty : Type 0 where
  agent_party employee_party md_party : SigningParty

unfoldable pub pending_signer : AgreementState → Option SigningParty
pending_signer ready_for_agent_signature = some agent_party
pending_signer agent_signing = some agent_party
pending_signer pending_employee_signature = some employee_party
pending_signer employee_signing = some employee_party
pending_signer pending_md_signature = some md_party
pending_signer md_signing = some md_party
pending_signer _ = none

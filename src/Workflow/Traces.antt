-- ===== src/Workflow/Traces.antt =====
-- Sequences of actions through the transition table of api/src/workflow/state-machine.ts.
use onlineaggrement.Base.{
  ◌≡◌, refl, Bool, true, false, List, [], ◌∷◌, Option, none, some, ◌⊎◌, ◌↔◌, arith, includes,
  if◌then◌else◌, Bool-cases, inl, inr,
}
use onlineaggrement.Workflow.States.{
  AgreementState, agent_signed, pending_employee_approval, employee_approving, employee_approved,
  pending_employee_signature, employee_signed, pending_md_signature, signature_failed,
  AgreementState_eq, WorkflowAction, advance_to_employee, advance_to_md, retry_employee_signature,
  retry_md_signature,
}
use onlineaggrement.Workflow.Rules.{transitions}

-- The action may be taken from `s` and leads to `t`.
abbrev pub IsEdge : AgreementState → WorkflowAction → AgreementState → Type 0
IsEdge s a t = (includes (transitions a).sources s ≡ true) × ((transitions a).target ≡ t)

-- The state after a sequence of actions, if each has an edge from where the last one led.
unfoldable pub run : AgreementState → List WorkflowAction → Option AgreementState
run s [] = some s
run s (a ∷ acts) =
    let rest = run (transitions a).target acts in
    if includes (transitions a).sources s then rest else none

-- PENDING_EMPLOYEE_SIGNATURE has two inbound edges: from AGENT_SIGNED, and the retry from
-- SIGNATURE_FAILED, whichever signature it was that failed.
pub pending_employee_signature-IsEdge_iff :
    (s : AgreementState) (a : WorkflowAction)
    → IsEdge s a pending_employee_signature ↔ (
        (s ≡ agent_signed) × (a ≡ advance_to_employee)
        ⊎ (s ≡ signature_failed) × (a ≡ retry_employee_signature))
unfolding transitions
pending_employee_signature-IsEdge_iff s a = ground arith

-- PENDING_MD_SIGNATURE has two inbound edges: from EMPLOYEE_SIGNED, and the retry from
-- SIGNATURE_FAILED, whichever signature it was that failed.
pub pending_md_signature-IsEdge_iff :
    (s : AgreementState) (a : WorkflowAction)
    → IsEdge s a pending_md_signature ↔ (
        (s ≡ employee_signed) × (a ≡ advance_to_md)
        ⊎ (s ≡ signature_failed) × (a ≡ retry_md_signature))
unfolding transitions
pending_md_signature-IsEdge_iff s a = ground arith

-- The states of the withdrawn approval step.
abbrev pub is_withdrawn : AgreementState → Bool
is_withdrawn pending_employee_approval = true
is_withdrawn employee_approving = true
is_withdrawn employee_approved = true
is_withdrawn _ = false

IsEdge-withdrawn :
    (s t : AgreementState) (a : WorkflowAction) → IsEdge s a t → is_withdrawn t ≡ false
unfolding transitions
IsEdge-withdrawn s t a h = ground arith

-- From any state outside the withdrawn approval step, no sequence of actions leads into it.
pub run-withdrawn :
    (s t : AgreementState) (acts : List WorkflowAction)
    → is_withdrawn s ≡ false
    → run s acts ≡ some t
    → is_withdrawn t ≡ false
unfolding run
run-withdrawn s t [] h e = ground arith
run-withdrawn s t (a ∷ acts) h e = elim (Bool-cases (includes (transitions a).sources s)) [
  | inl leaves ↦
      run-withdrawn (transitions a).target t acts
        (IsEdge-withdrawn s (transitions a).target a (leaves, refl)) (rw (leaves, run) at e)
  | inr stays ↦ cc (rw (stays, run) at e)
]

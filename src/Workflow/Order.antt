-- ===== src/Workflow/Order.antt =====
-- The order of the signatures that a sequence of actions records (BR-002 and BR-003 in
-- api/src/workflow/state-machine.ts), and a way to completion from every live state.
use onlineaggrement.Base.{
  ◌≡◌, refl, Bool, true, false, List, [], ◌∷◌, ◌++◌, some, ◌≢◌, arith, includes, subst, All,
  Bool-cases, inl, inr,
}
use onlineaggrement.Workflow.States.{
  AgreementState, draft, ready_for_agent_signature, agent_signing, agent_signed,
  pending_employee_signature, employee_signing, employee_signed, pending_md_signature, md_signing,
  completed, rejected, cancelled, expired, signature_failed, AgreementState_eq, WorkflowAction,
  generate, agent_sign_initiate, agent_sign_succeed, agent_sign_fail, advance_to_employee,
  employee_sign_initiate, employee_sign_succeed, advance_to_md, md_sign_initiate, md_sign_succeed,
  retry_agent_signature, retry_employee_signature, retry_md_signature, expire, correct,
}
use onlineaggrement.Workflow.Rules.{
  transitions, SigningParty, agent_party, employee_party, md_party,
}
use onlineaggrement.Workflow.Traces.{run, is_withdrawn}

-- The signatures on the current version: a success adds one, a correction opens a new version.
abbrev pub sign : List SigningParty → WorkflowAction → List SigningParty
sign signed agent_sign_succeed = signed ++ agent_party ∷ []
sign signed employee_sign_succeed = signed ++ employee_party ∷ []
sign signed md_sign_succeed = signed ++ md_party ∷ []
sign signed correct = []
sign signed _ = signed

abbrev pub signatures : List SigningParty → List WorkflowAction → List SigningParty
signatures signed [] = signed
signatures signed (a ∷ acts) = signatures (sign signed a) acts

abbrev pub is_retry : WorkflowAction → Bool
is_retry retry_agent_signature = true
is_retry retry_employee_signature = true
is_retry retry_md_signature = true
is_retry _ = false

-- The signatures that the state stands for.
abbrev Carries : AgreementState → List SigningParty → Type 0
Carries draft signed = signed ≡ []
Carries ready_for_agent_signature signed = signed ≡ []
Carries agent_signing signed = signed ≡ []
Carries agent_signed signed = signed ≡ agent_party ∷ []
Carries pending_employee_signature signed = signed ≡ agent_party ∷ []
Carries employee_signing signed = signed ≡ agent_party ∷ []
Carries employee_signed signed = signed ≡ agent_party ∷ employee_party ∷ []
Carries pending_md_signature signed = signed ≡ agent_party ∷ employee_party ∷ []
Carries md_signing signed = signed ≡ agent_party ∷ employee_party ∷ []
Carries completed signed = signed ≡ agent_party ∷ employee_party ∷ md_party ∷ []
Carries _ signed = Unit

some_cancel : {s t : AgreementState} → some s ≡ some t → s ≡ t
some_cancel h = cc

Carries-sign :
    (s : AgreementState) (a : WorkflowAction) (signed : List SigningParty)
    → includes (transitions a).sources s ≡ true
    → is_retry a ≡ false
    → Carries s signed
    → Carries (transitions a).target (sign signed a)
unfolding transitions
Carries-sign s generate signed h r c = ground arith
Carries-sign s _ signed h r c = ground arith

run-Carries :
    (s t : AgreementState) (acts : List WorkflowAction) (signed : List SigningParty)
    → Carries s signed
    → All (λ a. is_retry a ≡ false) acts
    → run s acts ≡ some t
    → Carries t (signatures signed acts)
unfolding run
run-Carries s t [] signed c h e = subst (λ u. Carries u signed) (some_cancel e) c
run-Carries s t (a ∷ acts) signed c (first_try, h) e =
    elim (Bool-cases (includes (transitions a).sources s)) [
      | inl leaves ↦
          run-Carries (transitions a).target t acts (sign signed a)
            (Carries-sign s a signed leaves first_try c) h (rw (leaves, run) at e)
      | inr stays ↦ cc (rw (stays, run) at e)
    ]

-- A sequence of actions that takes a draft to COMPLETED and holds no retry has recorded, since
-- the last correction, the signatures of the agent, the employee and the MD, in this order and
-- no others.
pub completed-signatures :
    (acts : List WorkflowAction)
    → All (λ a. is_retry a ≡ false) acts
    → run draft acts ≡ some completed
    → signatures [] acts ≡ agent_party ∷ employee_party ∷ md_party ∷ []
completed-signatures acts h e = run-Carries draft completed acts [] refl h e

-- With the retry of the MD's signature the agent's failure leads to COMPLETED with the MD's
-- signature alone.
retry_skips :
    let acts =
      generate ∷ agent_sign_initiate ∷ agent_sign_fail ∷ retry_md_signature ∷ md_sign_initiate
      ∷ md_sign_succeed ∷ [] in
    (run draft acts ≡ some completed) × (signatures [] acts ≡ md_party ∷ [])
unfolding run transitions
retry_skips = (refl, refl)

abbrev sign_md : List WorkflowAction
sign_md = md_sign_succeed ∷ []

abbrev to_md : List WorkflowAction
to_md = advance_to_md ∷ md_sign_initiate ∷ sign_md

abbrev to_employee : List WorkflowAction
to_employee = advance_to_employee ∷ employee_sign_initiate ∷ employee_sign_succeed ∷ to_md

abbrev from_ready : List WorkflowAction
from_ready = agent_sign_initiate ∷ agent_sign_succeed ∷ to_employee

-- A way to completion; it closes the version and corrects it where the version cannot complete.
abbrev pub route : AgreementState → List WorkflowAction
route draft = generate ∷ from_ready
route ready_for_agent_signature = from_ready
route agent_signing = agent_sign_succeed ∷ to_employee
route agent_signed = to_employee
route pending_employee_signature = employee_sign_initiate ∷ employee_sign_succeed ∷ to_md
route employee_signing = employee_sign_succeed ∷ to_md
route employee_signed = to_md
route pending_md_signature = md_sign_initiate ∷ sign_md
route md_signing = sign_md
route rejected = correct ∷ generate ∷ from_ready
route expired = correct ∷ generate ∷ from_ready
route signature_failed = expire ∷ correct ∷ generate ∷ from_ready
route _ = []

-- Every state but CANCELLED and those of the withdrawn approval step has a sequence of actions
-- to COMPLETED that holds no retry.
pub run-route :
    (s : AgreementState)
    → s ≢ cancelled
    → is_withdrawn s ≡ false
    → (run s (route s) ≡ some completed) × All (λ a. is_retry a ≡ false) (route s)
unfolding run transitions
run-route draft live h = ground arith
run-route _ live h = ground arith

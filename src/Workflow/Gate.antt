-- ===== src/Workflow/Gate.antt =====
-- What the gate of the workflow accepts and refuses (assertTransition and availableActions of
-- api/src/workflow/state-machine.ts).
pub mod Terms
use onlineaggrement.Base.{
  ◌≡◌, refl, Bool, true, false, ◌&&◌, List, Option, some, ◌⊎◌, ◌↔◌, arith, includes,
  includes-select, Text,
}
use onlineaggrement.Errors.{DomainError, forbidden, invalid_transition, ok, err}
use onlineaggrement.Workflow.States.{
  AgreementState, AgreementState_eq, WorkflowAction, WorkflowAction_eq, workflow_actions, generate,
  Role, completed, cancelled,
}
use onlineaggrement.Workflow.Rules.{
  TransitionOutcome, transitions, lacks_reason, permits, assert_transition, available_actions,
}
use mathlib.Core.Bool.{and-eq-true_iff}

-- The gate lets the action through: an edge leaves the state, some role of the actor may take it,
-- and a reason is given where one is asked for.
pub record IsAllowed (s : AgreementState) (a : WorkflowAction) (rs : List Role)
    (reason : Option Text) : Type 0 where
  pub leaves : includes (transitions a).sources s ≡ true
  pub permitted : permits a rs ≡ true
  pub reasoned : (transitions a).requires_reason ≡ true → lacks_reason reason ≡ false

module _ (s : AgreementState) (a : WorkflowAction) (rs : List Role) (reason : Option Text) where
  -- An outcome is returned exactly when the action is allowed, and it names the edge taken.
  pub assert_transition-ok_iff :
      (o : TransitionOutcome)
      → (assert_transition s a rs reason ≡ ok o) ↔ (
          IsAllowed s a rs reason
          × (o ≡ record {
            src = s;
            dst = (transitions a).target;
            action = a;
            rule = (transitions a).rule;
          }))
  unfolding assert_transition
  assert_transition-ok_iff o = ground arith

  -- The first test that fails decides the error: no edge, then the roles, then the reason.
  pub assert_transition-err_iff :
      (e : DomainError)
      → (assert_transition s a rs reason ≡ err e) ↔ (
          ((includes (transitions a).sources s ≡ false)
            × (e ≡ invalid_transition s (transitions a).target (transitions a).rule))
          ⊎ ((includes (transitions a).sources s ≡ true)
              × ((permits a rs ≡ false)
                  ⊎ ((transitions a).requires_reason ≡ true) × (lacks_reason reason ≡ true))
              × (e ≡ forbidden (some (transitions a).rule))))
  unfolding assert_transition
  assert_transition-err_iff e = ground arith

includes-workflow_actions : (a : WorkflowAction) → includes workflow_actions a ≡ true
includes-workflow_actions generate = refl
includes-workflow_actions _ = refl

-- The actions offered to an actor are those that the gate accepts from them with a reason.
pub available_actions_iff :
    (s : AgreementState) (a : WorkflowAction) (rs : List Role) (reason : Option Text)
    → lacks_reason reason ≡ false
    → (includes (available_actions s rs) a ≡ true)
      ↔ ((o : TransitionOutcome) × (assert_transition s a rs reason ≡ ok o))
unfolding available_actions
available_actions_iff s a rs reason given =
    let P : WorkflowAction → Bool = λ a'. includes (transitions a').sources s && permits a' rs in
    let chosen = includes-select P workflow_actions a in
    let at = assert_transition-ok_iff s a rs reason in
    let edge : TransitionOutcome = record {
      src = s;
      dst = (transitions a).target;
      action = a;
      rule = (transitions a).rule;
    } in
    (
      λ h.
          let both = (and-eq-true_iff _ _).0 (chosen.0 h).1 in
          (
            edge,
            (at edge).1
                (record { leaves = both.0; permitted = both.1; reasoned = λ _. given }, refl),
          ),
      λ r.
          let allowed = ((at r.0).0 r.1).0 in
          chosen.1 (
            includes-workflow_actions a,
            (and-eq-true_iff _ _).1 (allowed.leaves, allowed.permitted),
          ),
    )

-- Nothing leaves COMPLETED or CANCELLED: whoever acts, with whatever reason, is refused for want
-- of an edge.
pub assert_transition-absorbs :
    (s : AgreementState) (a : WorkflowAction) (rs : List Role) (reason : Option Text)
    → (s ≡ completed) ⊎ (s ≡ cancelled)
    → assert_transition s a rs reason
      ≡ err (invalid_transition s (transitions a).target (transitions a).rule)
unfolding assert_transition transitions
assert_transition-absorbs s a rs reason terminal = ground arith

-- ===== src/Workflow/Examples.antt =====
-- Concrete worlds of the workflow, tests on them, and the theorems applied to them.
use onlineaggrement.Base.{
  codes, All, ℕ, ◌≡◌, refl, ◌↔◌, ◌⊎◌, inr, true, false, List, [], ◌∷◌, none, some, Text, includes,
  arith, trim, first, select, update_where,
}
use onlineaggrement.Errors.{ok, err, invalid_transition, forbidden, other_error}
use onlineaggrement.Database.{World, AgreementRow, empty_db, user}
use onlineaggrement.Service.{
  done, fail, ◌>>=◌, ◌>>◌, return, or_throw, throw_if, branch, from_result, query, write,
  current_time, transaction, catch,
}
use onlineaggrement.Audit.{audit_record}
use onlineaggrement.Workflow.States.{
  AgreementState, draft, ready_for_agent_signature, agent_signing, agent_signed,
  pending_md_signature, md_signing, completed, rejected, cancelled, expired, signature_failed,
  AgreementState_eq, WorkflowAction, WorkflowAction_eq, generate, advance_to_employee,
  md_sign_initiate, reject, cancel, expire, correct, Role, agent, md, system,
  pending_employee_signature,
}
use onlineaggrement.Workflow.Rules.{
  transitions, TransitionOutcome, permits, lacks_reason, assert_transition, available_actions,
  agent_party, employee_party, md_party,
}
use onlineaggrement.Workflow.Gate.{available_actions_iff}
use onlineaggrement.Workflow.Gate.Terms.{
  HoldsRole, GivesReason, LacksRole, LacksReason, assert_transition-opens_iff,
  assert_transition-refuses_iff,
}
use onlineaggrement.Workflow.Traces.{IsEdge, run, pending_md_signature-IsEdge_iff}
use onlineaggrement.Workflow.Order.{signatures, route, is_retry, completed-signatures, run-route}
use onlineaggrement.Workflow
use onlineaggrement.Workflow.Service.{
  TransitionRequest, no_patch, patched, transition, transition_in,
}
use onlineaggrement.Workflow.Service.Laws.{IsMove, transition-IsMove}
use onlineaggrement.Workflow.Service.Moves.{found}
use onlineaggrement.Workflow.Corrections.{CorrectRequest, correct_agreement}
use onlineaggrement.Workflow.Corrections.Laws.{IsCorrection, correct_agreement-IsCorrection}
use onlineaggrement.Workflow.Sweep.{expire_overdue_agreements, is_overdue}
use onlineaggrement.Workflow.Sweep.Laws.{
  expire_overdue_agreements-IsExpired, expire_overdue_agreements-spares,
}

-- A reason of eleven code units with blanks around it.
abbrev long_reason : Text
long_reason = 32 ∷ 119 ∷ 114 ∷ 111 ∷ 110 ∷ 103 ∷ 32 ∷ 110 ∷ 97 ∷ 109 ∷ 101 ∷ 115 ∷ 32 ∷ []

abbrev blank_reason : Text
blank_reason = 32 ∷ 32 ∷ 32 ∷ 32 ∷ 32 ∷ 32 ∷ 32 ∷ 32 ∷ 32 ∷ 32 ∷ 32 ∷ []

reject_tests :
    (lacks_reason (some long_reason) ≡ false)
    × (assert_transition md_signing reject (md ∷ []) (some blank_reason)
        ≡ err (forbidden (some "FR-015")))
    × (assert_transition agent_signed reject (md ∷ []) (some long_reason)
        ≡ err (invalid_transition agent_signed rejected "FR-015"))
unfolding assert_transition transitions permits lacks_reason trim
reject_tests = (refl, refl, refl)

assert_transition-opens_iff_example :
    (assert_transition draft generate (agent ∷ []) none
      ≡ ok (record {
        src = draft;
        dst = ready_for_agent_signature;
        action = generate;
        rule = "FR-009";
      }))
    ↔ ((includes (transitions generate).sources draft ≡ true)
        × HoldsRole generate (agent ∷ [])
        × ((transitions generate).requires_reason ≡ true → GivesReason none)
        × (◌≡◌ {A = TransitionOutcome}
            (record {
              src = draft;
              dst = ready_for_agent_signature;
              action = generate;
              rule = "FR-009";
            })
            (record {
              src = draft;
              dst = (transitions generate).target;
              action = generate;
              rule = (transitions generate).rule;
            })))
assert_transition-opens_iff_example = assert_transition-opens_iff draft generate (agent ∷ []) none _

assert_transition-refuses_iff_example :
    (assert_transition draft generate (md ∷ []) none ≡ err (forbidden (some "FR-009"))) ↔ (
      ((includes (transitions generate).sources draft ≡ false)
        × (forbidden (some "FR-009")
            ≡ invalid_transition draft (transitions generate).target (transitions generate).rule))
      ⊎ ((includes (transitions generate).sources draft ≡ true)
          × (LacksRole generate (md ∷ [])
              ⊎ ((transitions generate).requires_reason ≡ true) × LacksReason none)
          × (forbidden (some "FR-009") ≡ forbidden (some (transitions generate).rule))))
assert_transition-refuses_iff_example =
    assert_transition-refuses_iff draft generate (md ∷ []) none _

available_actions_iff_example :
    (includes (available_actions md_signing (md ∷ [])) reject ≡ true) ↔ (
      (o : TransitionOutcome) × (assert_transition md_signing reject (md ∷ []) (some long_reason)
        ≡ ok o))
available_actions_iff_example =
    available_actions_iff md_signing reject (md ∷ []) (some long_reason) reject_tests.0

pending_md_signature-IsEdge_iff_example :
    IsEdge agent_signed advance_to_employee pending_md_signature ↔ (
      (agent_signed ≡ Workflow.States.employee_signed)
        × (advance_to_employee ≡ Workflow.States.advance_to_md)
      ⊎ (agent_signed ≡ signature_failed)
        × (advance_to_employee ≡ Workflow.States.retry_md_signature))
pending_md_signature-IsEdge_iff_example =
    pending_md_signature-IsEdge_iff agent_signed advance_to_employee

run-route_draft : run draft (route draft) ≡ some completed
unfolding run transitions
run-route_draft = refl

completed-signatures_example :
    signatures [] (route draft) ≡ agent_party ∷ employee_party ∷ md_party ∷ []
completed-signatures_example = completed-signatures (route draft) (ground arith) run-route_draft

run-route_example :
    (run signature_failed (route signature_failed) ≡ some completed)
    × All (λ a. is_retry a ≡ false) (route signature_failed)
run-route_example = run-route signature_failed (λ e. cc) refl

abbrev row : ℕ → AgreementState → AgreementRow
row id status = record {
  id = id;
  agreement_number = codes "GTIDS/2026-27/SVCAGR/000025";
  agreement_type_id = 5;
  template_version_id = none;
  status = status;
  current_version = 1;
  row_version = 3;
  place_of_execution_state = none;
  form = [];
  bank_id = none;
  created_by = 40;
  updated_at = 100;
  stamped = true;
  external_parties = false;
  expires_at = some 1000;
  execution_reference = none;
  verification_token = none;
  completed_at = none;
  rejected_reason = none;
  rejected_by = none;
  rejected_at = none;
}

abbrev world : List AgreementRow → World
world rows = record {
  db = record empty_db { agreements = rows };
  objects = [];
  now = 5000;
  next_id = 900;
}

abbrev generate_request : ℕ → TransitionRequest
generate_request i = record {
  agreement_id = i;
  action = generate;
  actor_id = some 40;
  actor_roles = agent ∷ [];
  trigger = user;
  reason = none;
  audit_event = none;
  audit_data = [];
  ip_address = none;
  user_agent = none;
  patch = no_patch;
}

-- What a test of the services computes with.
service : Unit {0}
unfolding ◌>>=◌ ◌>>◌ return or_throw throw_if branch from_result query write current_time
    transaction catch audit_record assert_transition transitions permits first select update_where
service = tt

abbrev drafts : World
drafts = world (row 1 rejected ∷ row 2 draft ∷ [])

generated :
    (r : AgreementRow) × (w : World) × (transition (generate_request 2) drafts ≡ done r w)
    × (r.expires_at ≡ some 1209605000)
unfolding service transition transition_in Workflow.Service.lock_agreement
    Workflow.Service.restart_sla Workflow.Service.restarts_sla Workflow.Service.sla_deadline
    Workflow.Service.add_days Workflow.Service.update_agreements Workflow.Service.patched
generated = (_, _, refl, refl)

transition-IsMove_example : IsMove (generate_request 2) drafts generated.1 generated.0
transition-IsMove_example =
    transition-IsMove (generate_request 2) drafts generated.1 generated.0 generated.2

-- A reason of ten code units that is five characters, each a pair of surrogates.
abbrev pairs_reason : Text
pairs_reason =
    0xD83D ∷ 0xDE00 ∷ 0xD83D ∷ 0xDE01 ∷ 0xD83D ∷ 0xDE02 ∷ 0xD83D ∷ 0xDE03 ∷ 0xD83D ∷ 0xDE04 ∷ []

abbrev reject_request : TransitionRequest
reject_request = record (generate_request 3) {
  action = reject;
  actor_roles = md ∷ [];
  reason = some pairs_reason;
  patch = record no_patch { rejected_reason = some (some pairs_reason) };
}

-- The gate lets it through, and the table does not.
pairs_test :
    transition reject_request (world (row 3 md_signing ∷ []))
    ≡ fail (other_error "check_violation") (world (row 3 md_signing ∷ []))
unfolding service trim lacks_reason transition transition_in Workflow.Service.lock_agreement
    Workflow.Service.restart_sla Workflow.Service.restarts_sla Workflow.Service.patched
pairs_test = refl

abbrev correct_request : ℕ → CorrectRequest
correct_request i = record {
  agreement_id = i;
  actor_id = 40;
  actor_roles = agent ∷ [];
  ip_address = none;
  user_agent = none;
}

corrected :
    (r : AgreementRow) × (w : World) × (correct_agreement (correct_request 1) drafts ≡ done r w)
    × (r.current_version ≡ 2)
unfolding service correct_agreement Workflow.Corrections.correct_transition
    Workflow.Corrections.history_row Workflow.Corrections.voided_count transition_in
    Workflow.Service.lock_agreement Workflow.Service.restart_sla Workflow.Service.restarts_sla
    Workflow.Service.update_agreements Workflow.Service.patched
corrected = (_, _, refl, refl)

correct_agreement-IsCorrection_example :
    IsCorrection (correct_request 1) drafts corrected.1 corrected.0
correct_agreement-IsCorrection_example =
    correct_agreement-IsCorrection (correct_request 1) drafts corrected.1 corrected.0 corrected.2

correction_refused :
    correct_agreement (correct_request 2) drafts
    ≡ fail (invalid_transition draft draft "FR-015a / BR-004") drafts
unfolding service correct_agreement Workflow.Corrections.correct_transition transition_in
    Workflow.Service.lock_agreement
correction_refused = refl

abbrev overdue : World
overdue = world (row 1 agent_signed ∷ row 2 pending_md_signature ∷ row 3 draft ∷ [])

expire_overdue_agreements-IsExpired_example :
    (n : ℕ) × (v : World) × (expire_overdue_agreements overdue ≡ done n v)
    × ((b : AgreementRow) × (found 2 v.db ≡ some b) × (b.status ≡ expired))
unfolding is_overdue transitions first
expire_overdue_agreements-IsExpired_example =
    expire_overdue_agreements-IsExpired 2 overdue (row 2 pending_md_signature) 1000 refl refl
      (omega arith) refl

abbrev mixed : World
mixed = world (row 1 completed ∷ row 2 pending_md_signature ∷ [])

expire_overdue_agreements-spares_example :
    (n : ℕ) × (v : World) × (expire_overdue_agreements mixed ≡ done n v)
    × (found 1 v.db ≡ found 1 mixed.db)
unfolding is_overdue
expire_overdue_agreements-spares_example =
    expire_overdue_agreements-spares 1 mixed ((λ e. inr (inr refl)), ((λ e. absurd (other e)), tt))
  where
    other : ◌≡◌ {A = ℕ} 2 1 → ⊥
    other e = omega arith

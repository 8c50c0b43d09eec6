-- ===== src/Workflow/Service/Laws.antt =====
-- The contract of WorkflowService.transition (api/src/workflow/workflow.service.ts).
use onlineaggrement.Base.{
  ℕ, suc, ◌≡◌, ◌≢◌, refl, sym, ap, ◌∙◌, subst₂, ◌⊎◌, inl, inr, none, some, Option-cases, Bool-cases,
  first-holds, first-update_where, first-update_where_miss, insert, ◌==◌, ℕ_eq, nat_eq_iff, arith,
}
use onlineaggrement.Errors.{DomainError, not_found, other_error, ok, err, Result-cases}
use onlineaggrement.Database.{
  World, AgreementRow, violates, IsViolation, violates-IsViolation, WorkflowTransitionRow, AuditRow,
}
use onlineaggrement.Service.{
  done, fail, done-ne-fail, done-injective, fail-injective, transaction-done, transaction-fail,
}
use onlineaggrement.Audit.{audit_row}
use onlineaggrement.Workflow.Rules.{transitions, TransitionOutcome, assert_transition}
use onlineaggrement.Workflow.Gate.{assert_transition-ok_iff, IsAllowed}
use onlineaggrement.Workflow.Service.{TransitionRequest, patched, transition_row, transition}
use onlineaggrement.Workflow.Service.Moves.{
  found, deadline, audit_of, is_locked, moved_db, transition_in-absent, transition_in-refused,
  transition_in-moved, transition_in-violated,
}

-- A transition took place between two worlds and returned the row `r`.
pub record IsMove (req : TransitionRequest) (w w' : World) (r : AgreementRow) : Type 0 where
  pub old : AgreementRow
  -- The agreement was there, and the gate let the action through from its status.
  pub was : found req.agreement_id w.db ≡ some old
  pub allowed : IsAllowed old.status req.action req.actor_roles req.reason
  -- The row returned is the one stored: at the target of the edge, one row version on.
  pub stored : found req.agreement_id w'.db ≡ some r
  pub status : r.status ≡ (transitions req.action).target
  pub row_version : r.row_version ≡ suc old.row_version
  -- No other agreement changed.
  pub others : (j : ℕ) → j ≢ req.agreement_id → found j w'.db ≡ found j w.db
  -- One record was added to the log of transitions, and one to the audit log.
  pub log : WorkflowTransitionRow
  pub logged : w'.db.workflow_transitions ≡ insert log w.db.workflow_transitions
  pub log_from : log.from_state ≡ old.status
  pub log_to : log.to_state ≡ r.status
  pub audit : AuditRow
  pub audited : w'.db.audit_logs ≡ insert audit w.db.audit_logs
  pub audit_agreement : audit.agreement_id ≡ some req.agreement_id

module _ (req : TransitionRequest) (w : World) where
  pub found_id : (a : AgreementRow) → found req.agreement_id w.db ≡ some a → a.id ≡ req.agreement_id
  found_id a h = (nat_eq_iff a.id req.agreement_id).0 (first-holds _ w.db.agreements a h)

  pub moved_db-stored :
      (a : AgreementRow) (o : TransitionOutcome)
      → found req.agreement_id w.db ≡ some a
      → found req.agreement_id (moved_db req o w a)
        ≡ some (patched req o w.now (deadline req o w a) a)
  unfolding patched
  moved_db-stored a o h =
      first-update_where (λ r. r.id == req.agreement_id) (is_locked a)
        (patched req o w.now (deadline req o w a)) w.db.agreements a
        (λ x k. ground (arith, found_id a h)) (λ x. refl) (ground arith) h

  moved_db-others :
      (a : AgreementRow) (o : TransitionOutcome)
      → found req.agreement_id w.db ≡ some a
      → (j : ℕ) → j ≢ req.agreement_id
      → found j (moved_db req o w a) ≡ found j w.db
  unfolding patched
  moved_db-others a o h j apart =
      first-update_where_miss (λ r. r.id == j) (is_locked a)
        (patched req o w.now (deadline req o w a)) w.db.agreements
        (λ x k. ground (arith, found_id a h)) (λ x. refl)

  pub moved-IsMove :
      (a : AgreementRow) (o : TransitionOutcome)
      → found req.agreement_id w.db ≡ some a
      → assert_transition a.status req.action req.actor_roles req.reason ≡ ok o
      → IsMove req w
          (record w { db = moved_db req o w a })
          (patched req o w.now (deadline req o w a) a)
  unfolding patched transition_row audit_row
  moved-IsMove a o h g =
      let (allowed, edge) =
        (assert_transition-ok_iff a.status req.action req.actor_roles req.reason o).0 g in
      record {
        old = a;
        was = h;
        allowed = allowed;
        stored = moved_db-stored a o h;
        status = ap (λ t. t.dst) edge;
        row_version = refl;
        others = moved_db-others a o h;
        log = transition_row req o a;
        logged = refl;
        log_from = ap (λ t. t.src) edge;
        log_to = refl;
        audit = audit_of req o a;
        audited = refl;
        audit_agreement = ap some (found_id a h);
      }

  -- The row that the transition would store.
  abbrev move_row : TransitionOutcome → AgreementRow → AgreementRow
  move_row o a = patched req o w.now (deadline req o w a) a

  -- A transition that returns has found the agreement in a state from which the gate lets the
  -- actor take the action with this reason. It has stored and returned the row at the target of
  -- the edge, one row version on; no other agreement differs; and it has added one record to the
  -- log of transitions, with the old and the new status, and one to the audit log.
  pub transition-IsMove :
      (w' : World) (r : AgreementRow) → transition req w ≡ done r w' → IsMove req w w' r
  unfolding transition
  transition-IsMove w' r e = elim (Option-cases (found req.agreement_id w.db)) [
    | inl absent ↦
        absurd (done-ne-fail (sym e ∙ transaction-fail _ (transition_in-absent req w absent)))
    | inr (a, h) ↦
        elim (Result-cases (assert_transition a.status req.action req.actor_roles req.reason)) [
          | inl (o, g) ↦ elim (Bool-cases (violates (move_row o a))) [
            | inl bad ↦ absurd (
                done-ne-fail
                  (sym e ∙ transaction-fail _ (transition_in-violated req w a o h g bad)))
            | inr fine ↦
                let (same_row, same_world) =
                  done-injective
                    (sym (transaction-done _ (transition_in-moved req w a o h g fine)) ∙ e) in
                subst₂ (IsMove req w) same_world same_row (moved-IsMove a o h g)
          ]
          | inr (x, g) ↦
              absurd
                (done-ne-fail (sym e ∙ transaction-fail _ (transition_in-refused req w a x h g)))
        ]
  ]

  pub transition-fails :
      (w' : World) (x : DomainError)
      → transition req w ≡ fail x w'
      → (w' ≡ w)
        × ((found req.agreement_id w.db ≡ none) × (x ≡ not_found "Agreement")
            ⊎ ((a : AgreementRow) × (found req.agreement_id w.db ≡ some a)
                × (assert_transition a.status req.action req.actor_roles req.reason ≡ err x))
            ⊎ ((a : AgreementRow) × (o : TransitionOutcome) × (found req.agreement_id w.db ≡ some a)
                × (assert_transition a.status req.action req.actor_roles req.reason ≡ ok o)
                × IsViolation (patched req o w.now (deadline req o w a) a)
                × (x ≡ other_error "check_violation")))
  unfolding transition
  transition-fails w' x e = elim (Option-cases (found req.agreement_id w.db)) [
    | inl absent ↦
        let (same_error, same_world) =
          fail-injective (sym (transaction-fail _ (transition_in-absent req w absent)) ∙ e) in
        (sym same_world, inl (absent, sym same_error))
    | inr (a, h) ↦
        elim (Result-cases (assert_transition a.status req.action req.actor_roles req.reason)) [
          | inl (o, g) ↦ elim (Bool-cases (violates (move_row o a))) [
            | inl bad ↦
                let (same_error, same_world) =
                  fail-injective
                    (sym (transaction-fail _ (transition_in-violated req w a o h g bad)) ∙ e) in
                (
                  sym same_world,
                  inr (inr (a, o, h, g, violates-IsViolation (move_row o a) bad, sym same_error)),
                )
            | inr fine ↦ absurd (
                done-ne-fail
                  (sym (transaction-done _ (transition_in-moved req w a o h g fine)) ∙ e))
          ]
          | inr (y, g) ↦
              let (same_error, same_world) =
                fail-injective
                  (sym (transaction-fail _ (transition_in-refused req w a y h g)) ∙ e) in
              (sym same_world, inr (inl (a, h, g ∙ ap err same_error)))
        ]
  ]

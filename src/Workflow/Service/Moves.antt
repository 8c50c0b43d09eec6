-- ===== src/Workflow/Service/Moves.antt =====
-- What one transition of WorkflowService (api/src/workflow/workflow.service.ts) does, on every
-- branch.
use onlineaggrement.Base.{
  ℕ, ◌≡◌, refl, ap, ◌∙◌, Bool, true, false, ◌&&◌, ◌∷◌, ◌++◌, Option, none, some, map, select, first,
  update_where, insert, ◌==◌, ℕ_eq, arith, first-holds, select-first, nat_eq_iff,
}
use onlineaggrement.Errors.{DomainError, not_found, other_error, ok, err}
use onlineaggrement.Database.{
  Db, World, AgreementRow, violates, AuditRow, StageSlaRow, status, act, str, state_event,
}
use onlineaggrement.Service.{
  done, fail, ◌>>=◌, ◌>>◌, return, branch, query, write, current_time, >>=-done, >>=-fail, >>-done,
  or_throw-some, or_throw-none, from_result-ok, from_result-err, query-done, write-done,
  current_time-done, throw_if-true, throw_if-false, >>-fail,
}
use onlineaggrement.Audit.{audit_row, audit_record}
use onlineaggrement.Workflow.States.{AgreementState_eq}
use onlineaggrement.Workflow.Rules.{TransitionOutcome, assert_transition}
use onlineaggrement.Workflow.Service.{
  TransitionRequest, over, patched, lock_agreement, sla_deadline, restarts_sla, restart_sla,
  update_agreements, first_row, transition_row, reason_data, transition_in, add_days, sla_days_of,
}

abbrev pub found : ℕ → Db → Option AgreementRow
found i d = first (λ r. r.id == i) d.agreements

abbrev pub is_sla : AgreementRow → TransitionOutcome → StageSlaRow → Bool
is_sla a o r = r.agreement_type_id == a.agreement_type_id && r.stage == o.dst

-- The row as it was read under the lock.
abbrev pub is_locked : AgreementRow → AgreementRow → Bool
is_locked a r = r.id == a.id && r.row_version == a.row_version

-- The deadline that the transition writes.
abbrev pub deadline :
    TransitionRequest → TransitionOutcome → World → AgreementRow → Option (Option ℕ)
deadline req o w a = elim (restarts_sla req o) [
  | true ↦ some (some (add_days w.now (sla_days_of (first (is_sla a o) w.db.stage_slas))))
  | false ↦ req.patch.expires_at
]

abbrev pub audit_of : TransitionRequest → TransitionOutcome → AgreementRow → AuditRow
audit_of req o a =
    audit_row (over req.audit_event (state_event o.dst))
      (("from", status o.src)
          ∷ ("to", status o.dst)
          ∷ ("action", act req.action)
          ∷ ("rule", str o.rule)
          ∷ reason_data req.reason
        ++ req.audit_data)
      (record {
        agreement_id = some a.id;
        agreement_version = some a.current_version;
        actor_id = req.actor_id;
        ip_address = req.ip_address;
        user_agent = req.user_agent;
      })

-- The database after a transition that is let through.
abbrev pub moved_db : TransitionRequest → TransitionOutcome → World → AgreementRow → Db
moved_db req o w a = record (w.db) {
  agreements =
      update_where (is_locked a) (patched req o w.now (deadline req o w a)) w.db.agreements;
  workflow_transitions = insert (transition_row req o a) w.db.workflow_transitions;
  audit_logs = insert (audit_of req o a) w.db.audit_logs;
}

module _ (w : World) (i : ℕ) where
  pub lock_agreement-some :
      (a : AgreementRow) → found i w.db ≡ some a → lock_agreement i w ≡ done a w
  unfolding lock_agreement
  lock_agreement-some a h = >>=-done _ _ (query-done _) ∙ or_throw-some _ h

  pub lock_agreement-none :
      found i w.db ≡ none → lock_agreement i w ≡ fail (not_found "Agreement") w
  unfolding lock_agreement
  lock_agreement-none h = >>=-done _ _ (query-done _) ∙ or_throw-none _ h

module _ (req : TransitionRequest) (w : World) where
  pub transition_in-absent :
      found req.agreement_id w.db ≡ none → transition_in req w ≡ fail (not_found "Agreement") w
  unfolding transition_in lock_agreement
  transition_in-absent h = >>=-fail _ _ (lock_agreement-none w _ h)

  pub transition_in-refused :
      (a : AgreementRow) (e : DomainError)
      → found req.agreement_id w.db ≡ some a
      → assert_transition a.status req.action req.actor_roles req.reason ≡ err e
      → transition_in req w ≡ fail e w
  unfolding transition_in
  transition_in-refused a e h g =
      >>=-done _ _ (lock_agreement-some w _ a h) ∙ >>=-fail _ _ (from_result-err g)

  restart_sla-done :
      (o : TransitionOutcome) (a : AgreementRow)
      → restart_sla req o a w ≡ done (deadline req o w a) w
  unfolding restart_sla sla_deadline branch ◌>>=◌ query current_time return
  restart_sla-done o a = ground arith

  update_agreements-done :
      (q : AgreementRow → Bool) (f : AgreementRow → AgreementRow)
      → update_agreements q f w
        ≡ done
            (map f (select q w.db.agreements))
            (record w { db = record (w.db) { agreements = update_where q f w.db.agreements } })
  unfolding update_agreements ◌>>=◌ ◌>>◌ query write return
  update_agreements-done q f = refl

  -- The row that was locked is the first that the update reaches.
  update-locked :
      (a : AgreementRow) (f : AgreementRow → AgreementRow)
      → found req.agreement_id w.db ≡ some a
      → first_row (map f (select (is_locked a) w.db.agreements)) ≡ some (f a)
  update-locked a f h =
      let at = (nat_eq_iff a.id req.agreement_id).0 (first-holds _ w.db.agreements a h) in
      let (rest, e) =
        select-first (λ r. r.id == req.agreement_id) (is_locked a) w.db.agreements a
          (λ x k. ground (arith, at)) (ground arith) h in
      ap (λ l. first_row (map f l)) e

  pub transition_in-violated :
      (a : AgreementRow) (o : TransitionOutcome)
      → found req.agreement_id w.db ≡ some a
      → assert_transition a.status req.action req.actor_roles req.reason ≡ ok o
      → violates (patched req o w.now (deadline req o w a) a) ≡ true
      → transition_in req w ≡ fail (other_error "check_violation") w
  unfolding transition_in
  transition_in-violated a o h g bad =
      >>=-done _ _ (lock_agreement-some w _ a h)
      ∙ >>=-done _ _ (from_result-ok g)
      ∙ >>=-done _ _ current_time-done
      ∙ >>=-done _ _ (restart_sla-done o a)
      ∙ >>-fail _ _ (throw_if-true _ bad)

  pub transition_in-moved :
      (a : AgreementRow) (o : TransitionOutcome)
      → found req.agreement_id w.db ≡ some a
      → assert_transition a.status req.action req.actor_roles req.reason ≡ ok o
      → violates (patched req o w.now (deadline req o w a) a) ≡ false
      → transition_in req w
        ≡ done (patched req o w.now (deadline req o w a) a) (record w { db = moved_db req o w a })
  unfolding transition_in return audit_record
  transition_in-moved a o h g fine =
      >>=-done _ _ (lock_agreement-some w _ a h)
      ∙ >>=-done _ _ (from_result-ok g)
      ∙ >>=-done _ _ current_time-done
      ∙ >>=-done _ _ (restart_sla-done o a)
      ∙ >>-done _ _ (throw_if-false _ fine)
      ∙ >>=-done _ _ (update_agreements-done _ _)
      ∙ >>=-done _ _ (or_throw-some _ (update-locked a _ h))
      ∙ >>-done _ _ (write-done _)
      ∙ >>-done _ _ (write-done _)

-- ===== src/Workflow/Corrections/Laws.antt =====
-- What a correction does (WorkflowService.correct of api/src/workflow/workflow.service.ts).
use onlineaggrement.Base.{
  ◌≢◌, nat_eq, Bool-cases, ℕ, suc, ◌≡◌, refl, sym, ap, ◌∙◌, subst, subst₂, ◌⊎◌, inl, inr, true,
  false, List, [], ◌∷◌, none, some, Option-cases, All, select, length, update_where, insert, ℕ_eq,
  nat_eq_iff, first-holds, arith,
}
use onlineaggrement.Errors.{DomainError, not_found, ok, err, Result-cases}
use onlineaggrement.Database.{
  initiated, pending_signer, violates-others, World, AgreementRow, EsignTransactionRow,
  VersionHistoryRow,
}
use onlineaggrement.Service.{
  Outcome, done, fail, >>=-done, >>=-fail, >>-done, query-done, write-done, current_time-done,
  transaction-fail, done-injective, fail-injective, done-ne-fail, transaction, roll_back,
}
use onlineaggrement.Workflow.States.{draft, rejected, expired, correct}
use onlineaggrement.Workflow.Rules.{transitions, TransitionOutcome, assert_transition, permits}
use onlineaggrement.Workflow.Gate.{IsAllowed, assert_transition-ok_iff}
use onlineaggrement.Workflow.Service.{over, restarts_sla, patched, transition_in}
use onlineaggrement.Workflow.Service.Moves.{
  found, deadline, moved_db, lock_agreement-some, lock_agreement-none, transition_in-refused,
  transition_in-moved,
}
use onlineaggrement.Workflow.Service.Laws.{moved_db-stored}
use onlineaggrement.Workflow.Corrections.{
  CorrectRequest, is_voided, voided_count, history_row, is_dead, kill, correct_transition,
  correct_agreement,
}

update-kill :
    (a : AgreementRow) (now : ℕ) (ts : List EsignTransactionRow)
    → All (λ t. is_dead a t ≡ false) (update_where (is_dead a) (kill now) ts)
unfolding update_where is_dead kill
update-kill a now [] = tt
update-kill a now (t ∷ ts) = (ground arith, update-kill a now ts)

-- The transaction is on another version, or it is neither INITIATED nor PENDING_SIGNER.
abbrev pub IsResolved : AgreementRow → EsignTransactionRow → Type 0
IsResolved a t =
    (t.agreement_id ≢ a.id)
    ⊎ (t.agreement_version ≢ a.current_version)
    ⊎ (t.status ≢ initiated) × (t.status ≢ pending_signer)

is_dead-IsResolved :
    (a : AgreementRow) (t : EsignTransactionRow) → is_dead a t ≡ false → IsResolved a t
unfolding is_dead
is_dead-IsResolved a t h = elim (Bool-cases (nat_eq t.agreement_id a.id)) [
  | inr other ↦ inl (λ e. ground (arith, other, e))
  | inl same ↦ elim (Bool-cases (nat_eq t.agreement_version a.current_version)) [
    | inr other ↦ inr (inl (λ e. ground (arith, other, e)))
    | inl current ↦ inr (
        inr
          ((λ e. ground (arith, same, current, h, e)), (λ e. ground (arith, same, current, h, e))))
  ]
]

All-IsResolved :
    (a : AgreementRow) (ts : List EsignTransactionRow)
    → All (λ t. is_dead a t ≡ false) ts
    → All (λ t. IsResolved a t) ts
All-IsResolved a [] h = tt
All-IsResolved a (t ∷ ts) (h, hs) = (is_dead-IsResolved a t h, All-IsResolved a ts hs)

-- The world in which the transition of a correction starts.
abbrev before_move : AgreementRow → World → World
before_move a w = record w {
  db = record (w.db) {
    agreement_version_history =
        insert (history_row a (voided_count a w.db)) w.db.agreement_version_history;
    esign_transactions = update_where (is_dead a) (kill w.now) w.db.esign_transactions;
  };
}

-- A correction took place between two worlds and returned the row `r`.
pub record IsCorrection (req : CorrectRequest) (w w' : World) (r : AgreementRow) : Type 0 where
  pub old : AgreementRow
  pub was : found req.agreement_id w.db ≡ some old
  pub closed : (old.status ≡ rejected) ⊎ (old.status ≡ expired)
  pub permitted : permits correct req.actor_roles ≡ true
  pub stored : found req.agreement_id w'.db ≡ some r
  pub reopened : r.status ≡ draft
  pub next_version : r.current_version ≡ suc old.current_version
  pub no_deadline : r.expires_at ≡ none
  pub no_rejection : (r.rejected_reason ≡ none) × (r.rejected_by ≡ none) × (r.rejected_at ≡ none)
  -- The closed version goes into the history with the number of the documents signed on it.
  pub closing : VersionHistoryRow
  pub recorded : w'.db.agreement_version_history ≡ insert closing w.db.agreement_version_history
  pub closing_version : closing.version_no ≡ old.current_version
  pub closing_status : closing.status_at_close ≡ old.status
  pub closing_voided :
      closing.voided_signature_count ≡ length (select (is_voided old) w.db.agreement_versions)
  -- No signing transaction stays open on the closed version.
  pub no_open : All (λ t. IsResolved old t) w'.db.esign_transactions

allowed-closed :
    (a : AgreementRow) (req : CorrectRequest)
    → IsAllowed a.status correct req.actor_roles none
    → (a.status ≡ rejected) ⊎ (a.status ≡ expired)
unfolding transitions
allowed-closed a req h = ground (arith, h.leaves)

correct-target : (transitions correct).target ≡ draft
unfolding transitions
correct-target = refl

module _ (req : CorrectRequest) (w : World) where
  deadline_correct :
      (a : AgreementRow) (o : TransitionOutcome)
      → deadline (correct_transition req a (voided_count a w.db)) o (before_move a w) a ≡ some none
  unfolding restarts_sla correct_transition
  deadline_correct a o = ground arith

  locked-id : (a : AgreementRow) → found req.agreement_id w.db ≡ some a → found a.id w.db ≡ some a
  locked-id a h =
      let same = (nat_eq_iff a.id req.agreement_id).0 (first-holds _ w.db.agreements a h) in
      subst (λ i. found i w.db ≡ some a) (sym same) h

  reopens :
      (a : AgreementRow) (o : TransitionOutcome)
      → assert_transition a.status correct req.actor_roles none ≡ ok o
      → o.dst ≡ draft
  reopens a o g =
      ap (λ e. e.dst) ((assert_transition-ok_iff a.status correct req.actor_roles none o).0 g).1
      ∙ correct-target

  correct_agreement-absent :
      found req.agreement_id w.db ≡ none → correct_agreement req w ≡ fail (not_found "Agreement") w
  unfolding correct_agreement
  correct_agreement-absent h =
      transaction-fail _ (>>=-fail _ _ (lock_agreement-none w req.agreement_id h))

  -- What the correction comes to once the row is locked.
  correct_agreement-found :
      (a : AgreementRow) {o : Outcome AgreementRow}
      → found req.agreement_id w.db ≡ some a
      → transition_in (correct_transition req a (voided_count a w.db)) (before_move a w) ≡ o
      → correct_agreement req w ≡ roll_back w.db o
  unfolding correct_agreement transaction
  correct_agreement-found a h e = ap (roll_back w.db) (
      >>=-done _ _ (lock_agreement-some w _ a h)
      ∙ >>=-done _ _ (query-done _)
      ∙ >>-done _ _ (write-done _)
      ∙ >>=-done _ _ current_time-done
      ∙ >>-done _ _ (write-done _)
      ∙ e)

  moved-IsCorrection :
      (a : AgreementRow) (o : TransitionOutcome)
      → found req.agreement_id w.db ≡ some a
      → let t = correct_transition req a (voided_count a w.db) in
        let v = before_move a w in
        assert_transition a.status correct req.actor_roles none ≡ ok o
        → IsCorrection req w
            (record v { db = moved_db t o v a })
            (patched t o v.now (deadline t o v a) a)
  unfolding patched correct_transition history_row voided_count
  moved-IsCorrection a o h g =
      let t = correct_transition req a (voided_count a w.db) in
      let v = before_move a w in
      let (allowed, edge) =
        (assert_transition-ok_iff a.status correct req.actor_roles none o).0 g in
      let same = (nat_eq_iff a.id req.agreement_id).0 (first-holds _ w.db.agreements a h) in
      record {
        old = a;
        was = h;
        closed = allowed-closed a req allowed;
        permitted = allowed.permitted;
        stored =
            subst (λ i. found i (moved_db t o v a) ≡ some (patched t o v.now (deadline t o v a) a))
              same (moved_db-stored t v a o (locked-id a h));
        reopened = reopens a o g;
        next_version = refl;
        no_deadline = ap (λ e. over e a.expires_at) (deadline_correct a o);
        no_rejection = (refl, refl, refl);
        closing = history_row a (voided_count a w.db);
        recorded = refl;
        closing_version = refl;
        closing_status = refl;
        closing_voided = refl;
        no_open = All-IsResolved a _ (update-kill a w.now w.db.esign_transactions);
      }

  correct_agreement-moved :
      (a : AgreementRow) (o : TransitionOutcome)
      → found req.agreement_id w.db ≡ some a
      → let t = correct_transition req a (voided_count a w.db) in
        let v = before_move a w in
        assert_transition a.status correct req.actor_roles none ≡ ok o
        → correct_agreement req w
          ≡ done (patched t o v.now (deadline t o v a) a) (record v { db = moved_db t o v a })
  unfolding correct_transition patched
  correct_agreement-moved a o h g =
      let t = correct_transition req a (voided_count a w.db) in
      let v = before_move a w in
      correct_agreement-found a h (
        transition_in-moved (correct_transition req a (voided_count a w.db)) (before_move a w) a o
          (locked-id a h) g
          (violates-others (patched t o w.now (deadline t o v a) a) draft (reopens a o g) refl
            refl))

  correct_agreement-refused :
      (a : AgreementRow) (e : DomainError)
      → found req.agreement_id w.db ≡ some a
      → assert_transition a.status correct req.actor_roles none ≡ err e
      → correct_agreement req w ≡ fail e w
  unfolding correct_transition
  correct_agreement-refused a e h g = correct_agreement-found a h (
      transition_in-refused (correct_transition req a (voided_count a w.db)) (before_move a w) a e
        (locked-id a h) g)

  -- A correction that returns has found the agreement REJECTED or EXPIRED and the actor's roles
  -- sufficient. It has stored and returned the row as a DRAFT of the next version, with no
  -- deadline and no rejection; put the closed version into the history, with its status and the
  -- number of the signed documents on it; and left no signing transaction open on that version.
  pub correct_agreement-IsCorrection :
      (w' : World) (r : AgreementRow)
      → correct_agreement req w ≡ done r w'
      → IsCorrection req w w' r
  correct_agreement-IsCorrection w' r e = elim (Option-cases (found req.agreement_id w.db)) [
    | inl absent ↦ absurd (done-ne-fail (sym e ∙ correct_agreement-absent absent))
    | inr (a, h) ↦ elim (Result-cases (assert_transition a.status correct req.actor_roles none)) [
      | inl (o, g) ↦
          let (same_row, same_world) = done-injective (sym (correct_agreement-moved a o h g) ∙ e) in
          subst₂ (IsCorrection req w) same_world same_row (moved-IsCorrection a o h g)
      | inr (x, g) ↦ absurd (done-ne-fail (sym e ∙ correct_agreement-refused a x h g))
    ]
  ]

  -- A correction that throws has changed nothing: no history, no signing transaction, no status.
  pub correct_agreement-fails :
      (w' : World) (x : DomainError) → correct_agreement req w ≡ fail x w' → w' ≡ w
  correct_agreement-fails w' x e = elim (Option-cases (found req.agreement_id w.db)) [
    | inl absent ↦ (fail-injective (sym e ∙ correct_agreement-absent absent)).1
    | inr (a, h) ↦ elim (Result-cases (assert_transition a.status correct req.actor_roles none)) [
      | inl (o, g) ↦ absurd (done-ne-fail (sym (correct_agreement-moved a o h g) ∙ e))
      | inr (y, g) ↦ (fail-injective (sym e ∙ correct_agreement-refused a y h g)).1
    ]
  ]

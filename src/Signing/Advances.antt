-- ===== src/Signing/Advances.antt =====
-- The agreement before and after a signature is applied (the database transaction of
-- completeSignature in api/src/signing/signing.service.ts).
use onlineaggrement.Base.{
  ℕ, ◌≡◌, refl, sym, ap, ◌∙◌, [], ◌∷◌, Option, none, some, true, includes, first, ◌==◌, ℕ_eq, arith,
}
use onlineaggrement.Database.{Db, World, AgreementRow}
use onlineaggrement.Service.{
  done, return, done-injective, >>=-inverse, >>-inverse, transaction-done,
}
use onlineaggrement.Service.Unchanged.{Keeps-done}
use onlineaggrement.Workflow.States.{
  AgreementState, AgreementState_eq, pending_employee_signature, pending_md_signature, completed,
  WorkflowAction,
}
use onlineaggrement.Workflow.Rules.{
  transitions, SigningParty, agent_party, employee_party, md_party,
}
use onlineaggrement.Workflow.Service.{TransitionRequest, transition_in, transition}
use onlineaggrement.Workflow.Service.Moves.{found}
use onlineaggrement.Workflow.Service.Laws.{IsMove, transition-IsMove}
use onlineaggrement.Workflow.Corrections.{transition_chain_in, chain_from}
use onlineaggrement.Documents.{Platform, StoredVersion}
use onlineaggrement.Signing.Parties.{signing_party}
use onlineaggrement.Signing.Completion.{
  Completion, succeed_transition, advance_transition, advance, apply_signature,
}
use onlineaggrement.Signing.Effects.{
  agreements_of, complete_signature-IsQuiet, mark_signed-IsQuiet, add_signature_event-IsQuiet,
  write_parties-IsQuiet, notify_signed-IsQuiet, finalize-IsQuiet, mint_execution_reference-IsQuiet,
  IsQuiet-current_time, IsQuiet-fresh_id,
}

-- Where an agreement goes once a party has signed.
abbrev pub status_after : SigningParty → AgreementState
status_after agent_party = pending_employee_signature
status_after employee_party = pending_md_signature
status_after md_party = completed

pub transition_in-IsMove :
    (req : TransitionRequest) (w v : World) (r : AgreementRow)
    → transition_in req w ≡ done r v
    → IsMove req w v r
unfolding transition
transition_in-IsMove req w v r h = transition-IsMove req w v r (transaction-done _ h)

-- The agreement waited for this party's signature, and has moved on.
pub record IsAdvance (i : ℕ) (field : SigningParty) (w v : World) : Type 0 where
  pub before : AgreementRow
  pub was : found i w.db ≡ some before
  pub signing : before.status ≡ (signing_party field).signing_state
  pub after : AgreementRow
  pub is : found i v.db ≡ some after
  pub advanced : after.status ≡ status_after field

pub found-unchanged :
    (d d' : Db) (i : ℕ) → agreements_of d' ≡ agreements_of d → found i d' ≡ found i d
found-unchanged d d' i h = ap (λ l. first (λ r. r.id == i) l) h

succeeds-from :
    (field : SigningParty) (s : AgreementState)
    → includes (transitions (signing_party field).succeed).sources s ≡ true
    → s ≡ (signing_party field).signing_state
unfolding transitions
succeeds-from agent_party s h = ground arith
succeeds-from employee_party s h = ground arith
succeeds-from md_party s h = ground arith

chain_of_two :
    (a b : TransitionRequest) (w v : World) (r : AgreementRow)
    → transition_chain_in (a ∷ b ∷ []) w ≡ done r v
    → (q : AgreementRow) × (u : World) × IsMove a w u q × IsMove b u v r
unfolding transition_chain_in chain_from
chain_of_two a b w v r h =
    let (q, u, e, k) = >>=-inverse _ _ h in
    (q, u, transition_in-IsMove a w u q e, transition_in-IsMove b u v r k)

module _ (platform : Platform) (c : Completion) where
  advance-chain :
      (action : WorkflowAction) (hash : ℕ) (w v : World)
      → advance platform c hash (some action) w ≡ done tt v
      → (before after : AgreementRow) × (found c.agreement.id w.db ≡ some before)
        × (includes (transitions (signing_party c.field).succeed).sources before.status ≡ true)
        × (found c.agreement.id v.db ≡ some after)
        × (after.status ≡ (transitions action).target)
  unfolding advance succeed_transition advance_transition
  advance-chain action hash w v h =
      let (r, u, e, k) = >>-inverse _ _ h in
      let (q, x, first_move, second_move) = chain_of_two _ _ w u r e in
      let quiet = Keeps-done agreements_of _ (notify_signed-IsQuiet c _) k in
      (
        first_move.old,
        r,
        first_move.was,
        first_move.allowed.leaves,
        found-unchanged u.db v.db c.agreement.id quiet ∙ second_move.stored,
        second_move.status,
      )

  advance-last :
      (hash : ℕ) (w v : World)
      → advance platform c hash none w ≡ done tt v
      → (before after : AgreementRow) × (found c.agreement.id w.db ≡ some before)
        × (includes (transitions (signing_party c.field).succeed).sources before.status ≡ true)
        × (found c.agreement.id v.db ≡ some after)
        × (after.status ≡ (transitions (signing_party c.field).succeed).target)
  unfolding advance succeed_transition
  advance-last hash w v h =
      let (reference, w1, e1, h1) = >>=-inverse _ _ h in
      let (now, w2, e2, h2) = >>=-inverse _ _ h1 in
      let (draw, w3, e3, h3) = >>=-inverse _ _ h2 in
      let (r, w4, e4, h4) = >>-inverse _ _ h3 in
      let move = transition_in-IsMove _ w3 w4 r e4 in
      let quiet_before =
        Keeps-done agreements_of _ IsQuiet-fresh_id e3
        ∙ Keeps-done agreements_of _ IsQuiet-current_time e2
        ∙ Keeps-done agreements_of _ (mint_execution_reference-IsQuiet platform c.agreement) e1 in
      let quiet_after = Keeps-done agreements_of _ (finalize-IsQuiet c.agreement.id hash) h4 in
      (
        move.old,
        r,
        sym (found-unchanged w.db w3.db c.agreement.id quiet_before) ∙ move.was,
        move.allowed.leaves,
        found-unchanged w4.db v.db c.agreement.id quiet_after ∙ move.stored,
        move.status,
      )

  target_after : (field : SigningParty) → Option WorkflowAction → AgreementState
  target_after field none = (transitions (signing_party field).succeed).target
  target_after field (some action) = (transitions action).target

  advance-IsAdvance :
      (action : Option WorkflowAction) (hash : ℕ) (w v : World)
      → target_after c.field action ≡ status_after c.field
      → advance platform c hash action w ≡ done tt v
      → IsAdvance c.agreement.id c.field w v
  unfolding target_after
  advance-IsAdvance none hash w v t h =
      let (before, after, was, leaves, is, to) = advance-last hash w v h in
      record {
        before = before;
        was = was;
        signing = succeeds-from c.field before.status leaves;
        after = after;
        is = is;
        advanced = to ∙ t;
      }
  advance-IsAdvance (some action) hash w v t h =
      let (before, after, was, leaves, is, to) = advance-chain action hash w v h in
      record {
        before = before;
        was = was;
        signing = succeeds-from c.field before.status leaves;
        after = after;
        is = is;
        advanced = to ∙ t;
      }

  target_after_signing :
      (field : SigningParty) → target_after field (signing_party field).advance ≡ status_after field
  unfolding target_after transitions
  target_after_signing agent_party = refl
  target_after_signing employee_party = refl
  target_after_signing md_party = refl

  -- A signature that is applied has found the agreement in the signing state of its party, and
  -- leaves it waiting for the next party: for the employee after the agent, for the MD after the
  -- employee, and COMPLETED after the MD.
  pub apply_signature-IsAdvance :
      (w v : World) (s : StoredVersion)
      → apply_signature platform c w ≡ done s v
      → IsAdvance c.agreement.id c.field w v
  unfolding apply_signature return
  apply_signature-IsAdvance w v s h =
      let (stored, w1, e1, h1) = >>=-inverse _ _ h in
      let (_, w2, e2, h2) = >>-inverse _ _ h1 in
      let (_, w3, e3, h3) = >>-inverse _ _ h2 in
      let (_, w4, e4, h4) = >>-inverse _ _ h3 in
      let (_, w5, e5, h5) = >>-inverse _ _ h4 in
      let (_, same) = done-injective h5 in
      let m = advance-IsAdvance _ stored.document_hash w4 w5 (target_after_signing c.field) e5 in
      let quiet =
        Keeps-done agreements_of _ (write_parties-IsQuiet _ _) e4
        ∙ Keeps-done agreements_of _ (add_signature_event-IsQuiet _) e3
        ∙ Keeps-done agreements_of _ (mark_signed-IsQuiet c.transaction.id) e2
        ∙ Keeps-done agreements_of _ (complete_signature-IsQuiet platform _) e1 in
      record {
        before = m.before;
        was = sym (found-unchanged w.db w4.db c.agreement.id quiet) ∙ m.was;
        signing = m.signing;
        after = m.after;
        is = ap (λ x. found c.agreement.id x.db) (sym same) ∙ m.is;
        advanced = m.advanced;
      }

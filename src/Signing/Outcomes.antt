-- ===== src/Signing/Outcomes.antt =====
-- The agreement before and after a rejection (reject of
-- api/src/signing/signing.service.ts).
use onlineaggrement.Base.{
  ℕ, ◌≡◌, refl, sym, ap, ◌∙◌, ◌⊎◌, inl, inr, List, some, true, includes, arith, Option-cases, subst,
  nat_eq_iff, first-holds,
}
use onlineaggrement.Database.{Db, World, AgreementRow}
use onlineaggrement.Service.{
  done, return, done-injective, done-ne-fail, >>=-inverse, >>-inverse, transaction-inverse,
  query-done, or_throw-some, or_throw-none, >>=-done,
}
use onlineaggrement.Service.Unchanged.{Keeps-done}
use onlineaggrement.Workflow.States.{
  AgreementState, AgreementState_eq, Role, Role_eq, pending_employee_signature, employee_signing,
  pending_md_signature, md_signing,
}
use onlineaggrement.Workflow.Rules.{transitions, permits}
use onlineaggrement.Workflow.Service.{get_agreement}
use onlineaggrement.Workflow.Service.Moves.{found}
use onlineaggrement.Signing.Ceremony.{ActionContext}
use onlineaggrement.Signing.Rejection.{
  RejectParams, by_employee, reject_action, reject_transition, reject_in, reject_agreement,
}
use onlineaggrement.Signing.Effects.{
  agreements_of, party-IsQuiet, current_version-IsQuiet, add_signature_event-IsQuiet,
  IsQuiet-current_time, enqueue-IsQuiet,
}
use onlineaggrement.Signing.Advances.{transition_in-IsMove, found-unchanged}

pub get_agreement-inverse :
    (i : ℕ) (w v : World) (a : AgreementRow)
    → get_agreement i w ≡ done a v
    → (v ≡ w) × (found i w.db ≡ some a)
unfolding get_agreement
get_agreement-inverse i w v a h = elim (Option-cases (found i w.db)) [
  | inl absent ↦
      absurd (done-ne-fail (sym h ∙ >>=-done _ _ (query-done _) ∙ or_throw-none _ absent))
  | inr (b, e) ↦
      let (row, world) =
        done-injective (sym (>>=-done _ _ (query-done _) ∙ or_throw-some _ e) ∙ h) in
      (sym world, e ∙ ap some row)
]

pub found_id_of : (i : ℕ) (d : Db) (a : AgreementRow) → found i d ≡ some a → a.id ≡ i
found_id_of i d a h = (nat_eq_iff a.id i).0 (first-holds _ d.agreements a h)

some_cancel : {x y : AgreementRow} → some x ≡ some y → x ≡ y
some_cancel h = cc

-- The employee rejects before the employee has signed, and the MD or a delegate before the MD has.
abbrev pub MayReject : AgreementState → List Role → Type 0
MayReject s roles =
    ((s ≡ pending_employee_signature) ⊎ (s ≡ employee_signing))
      × (includes roles Role.employee ≡ true)
    ⊎ ((s ≡ pending_md_signature) ⊎ (s ≡ md_signing))
      × ((includes roles Role.md ≡ true) ⊎ (includes roles Role.md_delegate ≡ true))

may_reject :
    (s : AgreementState) (roles : List Role)
    → includes (transitions (reject_action s)).sources s ≡ true
    → permits (reject_action s) roles ≡ true
    → MayReject s roles
unfolding transitions reject_action by_employee permits
may_reject pending_employee_signature roles h k = inl (inl refl, ground arith)
may_reject employee_signing roles h k = inl (inr refl, ground arith)
may_reject pending_md_signature roles h k = inr (inl refl, ground arith)
may_reject md_signing roles h k = inr (inr refl, ground arith)
may_reject AgreementState.draft roles h k = cc
may_reject AgreementState.ready_for_agent_signature roles h k = cc
may_reject AgreementState.agent_signing roles h k = cc
may_reject AgreementState.agent_signed roles h k = cc
may_reject AgreementState.pending_employee_approval roles h k = cc
may_reject AgreementState.employee_approving roles h k = cc
may_reject AgreementState.employee_approved roles h k = cc
may_reject AgreementState.employee_signed roles h k = cc
may_reject AgreementState.completed roles h k = cc
may_reject AgreementState.rejected roles h k = cc
may_reject AgreementState.cancelled roles h k = cc
may_reject AgreementState.expired roles h k = cc
may_reject AgreementState.signature_failed roles h k = cc

-- A rejection took place between two worlds.
pub record IsRejection (params : RejectParams) (w v : World) : Type 0 where
  pub before : AgreementRow
  pub was : found params.agreement_id w.db ≡ some before
  pub may : MayReject before.status params.actor.roles
  pub after : AgreementRow
  pub is : found params.agreement_id v.db ≡ some after
  pub rejected : after.status ≡ AgreementState.rejected

module _ (params : RejectParams) (ctx : ActionContext) where
  reject_in-IsMove :
      (a : AgreementRow) (party_id : ℕ) (w v : World)
      → reject_in params ctx a party_id w ≡ done tt v
      → (before after : AgreementRow) × (found a.id w.db ≡ some before)
        × (includes (transitions (reject_action a.status)).sources before.status ≡ true)
        × (permits (reject_action a.status) params.actor.roles ≡ true)
        × (found a.id v.db ≡ some after)
        × (after.status ≡ (transitions (reject_action a.status)).target)
  unfolding reject_in reject_transition return
  reject_in-IsMove a party_id w v h =
      let (version, w1, e1, h1) = >>=-inverse _ _ h in
      let (_, w2, e2, h2) = >>-inverse _ _ h1 in
      let (now, w3, e3, h3) = >>=-inverse _ _ h2 in
      let (r, w4, e4, h4) = >>-inverse _ _ h3 in
      let (_, w5, e5, h5) = >>-inverse _ _ h4 in
      let (_, same) = done-injective h5 in
      let move = transition_in-IsMove _ w3 w4 r e4 in
      let quiet_before =
        Keeps-done agreements_of _ IsQuiet-current_time e3
        ∙ Keeps-done agreements_of _ (add_signature_event-IsQuiet _) e2
        ∙ Keeps-done agreements_of _ (current_version-IsQuiet _ _) e1 in
      let quiet_after =
        ap (λ x. agreements_of x.db) (sym same)
        ∙ Keeps-done agreements_of _ (enqueue-IsQuiet _) e5 in
      (
        move.old,
        r,
        sym (found-unchanged w.db w3.db a.id quiet_before) ∙ move.was,
        move.allowed.leaves,
        move.allowed.permitted,
        found-unchanged w4.db v.db a.id quiet_after ∙ move.stored,
        move.status,
      )

  reject_action-target :
      (s : AgreementState) → (transitions (reject_action s)).target ≡ AgreementState.rejected
  unfolding transitions reject_action
  reject_action-target s = ground arith

  -- A rejection that returns was made by an employee while the employee's signature was awaited, or
  -- by the MD or a delegate while the MD's was, and the agreement is REJECTED afterwards.
  pub reject_agreement-IsRejection :
      (w v : World) → reject_agreement params ctx w ≡ done tt v → IsRejection params w v
  unfolding reject_agreement
  reject_agreement-IsRejection w v h =
      let (a, w1, e1, h1) = >>=-inverse _ _ h in
      let (row, w2, e2, h2) = >>=-inverse _ _ h1 in
      let (same, here) = get_agreement-inverse params.agreement_id w w1 a e1 in
      let at = found_id_of params.agreement_id w.db a here in
      let quiet =
        Keeps-done agreements_of _ (party-IsQuiet _ _) e2 ∙ ap (λ x. agreements_of x.db) same in
      let (before, after, was, leaves, permitted, is, to) =
        reject_in-IsMove a row.id w2 v (transaction-inverse _ h2) in
      let was_here =
        ap (λ i. found i w.db) (sym at) ∙ sym (found-unchanged w.db w2.db a.id quiet) ∙ was in
      let as_read : before ≡ a = some_cancel (sym was_here ∙ here) in
      record {
        before = before;
        was = was_here;
        may =
            may_reject before.status params.actor.roles
              (subst (λ s. includes (transitions (reject_action s)).sources before.status ≡ true)
                (ap (λ x. x.status) (sym as_read)) leaves)
              (subst (λ s. permits (reject_action s) params.actor.roles ≡ true)
                (ap (λ x. x.status) (sym as_read)) permitted);
        after = after;
        is = ap (λ i. found i v.db) (sym at) ∙ is;
        rejected = to ∙ reject_action-target a.status;
      }

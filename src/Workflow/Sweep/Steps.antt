-- ===== src/Workflow/Sweep/Steps.antt =====
-- One step of the expiry sweep (findExpired of api/src/workflow/workflow.service.ts,
-- expireOverdueAgreements of api/src/jobs/scheduled-jobs.service.ts).
use onlineaggrement.Base.{
  ℕ, suc, ◌≡◌, ◌≢◌, refl, sym, ap, ◌∙◌, subst, ◌⊎◌, inl, inr, true, false, Option, some, Bool-cases,
  includes, ℕ_eq, nat_eq, nat_eq_iff, arith,
}
use onlineaggrement.Database.{World, AgreementRow, violates-others}
use onlineaggrement.Service.{
  done, >>=-done, >>=-fail, catch-done, catch-fail, return, transaction-done, Outcome-cases,
}
use onlineaggrement.Workflow.States.{AgreementState_eq, expire, expired}
use onlineaggrement.Workflow.Rules.{transitions, permits, TransitionOutcome}
use onlineaggrement.Workflow.Gate.{IsAllowed, assert_transition-ok_iff}
use onlineaggrement.Workflow.Service.{transition, patched}
use onlineaggrement.Workflow.Service.Moves.{found, deadline, transition_in-moved}
use onlineaggrement.Workflow.Service.Laws.{
  IsMove, moved-IsMove, transition-IsMove, transition-fails,
}
use onlineaggrement.Workflow.Sweep.{expire_request, expire_one}

pub return-done : {A : Type 0} (a : A) (w : World) → return a w ≡ done a w
unfolding return
return-done a w = refl

-- One step of the sweep goes on, with the world as it was or after one transition.
pub expire_one-done :
    (n : ℕ) (r : AgreementRow) (w : World)
    → (m : ℕ) × (v : World) × (expire_one n r w ≡ done m v)
      × ((v ≡ w) ⊎ ((r' : AgreementRow) × IsMove (expire_request r) w v r'))
unfolding expire_one
expire_one-done n r w = elim (Outcome-cases (transition (expire_request r) w)) [
  | inl (r', v, e) ↦ (
    suc n,
    v,
    catch-done _ _ (>>=-done _ _ e ∙ return-done (suc n) v),
    inr (r', transition-IsMove (expire_request r) w v r' e),
  )
  | inr (x, v, e) ↦ (
    n,
    v,
    catch-fail _ _ (>>=-fail _ _ e) ∙ return-done n v,
    inl (transition-fails (expire_request r) w v x e).0,
  )
]

expire-leaves-ne :
    (a : AgreementRow) → includes (transitions expire).sources a.status ≡ true → a.status ≢ expired
unfolding transitions
expire-leaves-ne a h e = ground arith

-- The agreement `i` is EXPIRED.
abbrev pub IsExpired : ℕ → World → Type 0
IsExpired i w = (a : AgreementRow) × (found i w.db ≡ some a) × (a.status ≡ expired)

same_row : {a b : AgreementRow} {o : Option AgreementRow} → o ≡ some a → o ≡ some b → a ≡ b
same_row h k = cc

pub step-IsExpired :
    (i : ℕ) (r : AgreementRow) (w v : World)
    → IsExpired i w
    → ((v ≡ w) ⊎ ((r' : AgreementRow) × IsMove (expire_request r) w v r'))
    → IsExpired i v
unfolding expire_request
step-IsExpired i r w v h (inl e) = subst (IsExpired i) (sym e) h
step-IsExpired i r w v (a, at, is) (inr (r', m)) = elim (Bool-cases (nat_eq i r.id)) [
  | inl same ↦
      let here = (nat_eq_iff i r.id).0 same in
      let old = same_row (subst (λ j. found j w.db ≡ some a) here at) m.was in
      absurd (expire-leaves-ne m.old m.allowed.leaves (ap (λ x. x.status) (sym old) ∙ is))
  | inr other ↦ (a, m.others i (λ e. cc (other, (nat_eq_iff i r.id).1 e)) ∙ at, is)
]

expire-target : (transitions expire).target ≡ expired
unfolding transitions
expire-target = refl

expire_request-IsAllowed :
    (a r : AgreementRow)
    → includes (transitions expire).sources a.status ≡ true
    → IsAllowed a.status expire (expire_request r).actor_roles (expire_request r).reason
unfolding expire_request transitions permits
expire_request-IsAllowed a r h = record { leaves = h; permitted = refl; reasoned = λ e. cc }

-- The agreement `i` stands in a state that has an edge to EXPIRED.
abbrev pub IsExpirable : ℕ → World → Type 0
IsExpirable i w =
    (a : AgreementRow) × (found i w.db ≡ some a)
    × (includes (transitions expire).sources a.status ≡ true)

-- The step for the agreement itself expires it.
pub expire_one-hit :
    (n : ℕ) (r : AgreementRow) (w : World)
    → IsExpirable r.id w
    → (v : World) × (expire_one n r w ≡ done (suc n) v) × IsExpired r.id v
unfolding expire_one transition expire_request
expire_one-hit n r w (a, at, leaves) =
    let req = expire_request r in
    let o : TransitionOutcome = record {
      src = a.status;
      dst = (transitions expire).target;
      action = expire;
      rule = (transitions expire).rule;
    } in
    let g =
      (assert_transition-ok_iff a.status expire req.actor_roles req.reason o).1
        (expire_request-IsAllowed a r leaves, refl) in
    let m = moved-IsMove req w a o at g in
    let fine =
      violates-others (patched req o w.now (deadline req o w a) a) expired
        (m.status ∙ expire-target) refl refl in
    (
      _,
      catch-done _ _ (
          >>=-done _ _ (transaction-done _ (transition_in-moved req w a o at g fine))
          ∙ return-done _ _),
      (_, m.stored, m.status ∙ expire-target),
    )

pub step-others :
    (i : ℕ) (r : AgreementRow) (w v : World)
    → nat_eq r.id i ≡ false
    → ((v ≡ w) ⊎ ((r' : AgreementRow) × IsMove (expire_request r) w v r'))
    → found i v.db ≡ found i w.db
unfolding expire_request
step-others i r w v apart (inl e) = ap (λ u. found i u.db) e
step-others i r w v apart (inr (r', m)) =
    m.others i (λ e. cc (apart, (nat_eq_iff r.id i).1 (sym e)))

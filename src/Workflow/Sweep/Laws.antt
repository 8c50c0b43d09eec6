-- ===== src/Workflow/Sweep/Laws.antt =====
-- What the expiry sweep reaches (findExpired of api/src/workflow/workflow.service.ts,
-- expireOverdueAgreements of api/src/jobs/scheduled-jobs.service.ts).
use onlineaggrement.Base.{
  ℕ, suc, ◌≡◌, ◌<◌, ◌≤◌, ◌⊎◌, All, none, refl, sym, ◌∙◌, subst, inl, inr, Bool, true, false, List,
  [], ◌∷◌, some, Bool-cases, any, ◌&&◌, select, first, includes, ◌==◌, ℕ_eq, nat_eq, nat_eq_iff,
  arith,
}
use onlineaggrement.Database.{World, AgreementRow}
use onlineaggrement.Service.{done, >>=-done, query-done, current_time-done}
use onlineaggrement.Workflow.States.{
  AgreementState_eq, expire, expired, completed, cancelled, rejected,
}
use onlineaggrement.Workflow.Rules.{transitions}
use onlineaggrement.Workflow.Service.Moves.{found}
use onlineaggrement.Workflow.Sweep.Steps.{
  return-done, expire_one-done, IsExpired, IsExpirable, step-IsExpired, expire_one-hit, step-others,
}
use onlineaggrement.Workflow.Sweep.{
  is_overdue, find_expired, expire_each, expire_overdue_agreements,
}

abbrev lists : ℕ → List AgreementRow → Bool
lists i = any (λ r. nat_eq r.id i)

-- A sweep over a list of rows always comes to an end with a count.
expire_each-IsExpired :
    (i n : ℕ) (rs : List AgreementRow) (w : World)
    → IsExpired i w
    → (m : ℕ) × (v : World) × (expire_each n rs w ≡ done m v) × IsExpired i v
unfolding expire_each
expire_each-IsExpired i n [] w h = (n, w, return-done n w, h)
expire_each-IsExpired i n (r ∷ rs) w h =
    let (m, v, e, change) = expire_one-done n r w in
    let (k, u, e', h') = expire_each-IsExpired i m rs v (step-IsExpired i r w v h change) in
    (k, u, >>=-done _ _ e ∙ e', h')

expire_each-hit :
    (i n : ℕ) (rs : List AgreementRow) (w : World)
    → IsExpirable i w
    → lists i rs ≡ true
    → (m : ℕ) × (v : World) × (expire_each n rs w ≡ done m v) × IsExpired i v
unfolding expire_each
expire_each-hit i n [] w h listed = cc
expire_each-hit i n (r ∷ rs) w h listed = elim (Bool-cases (nat_eq r.id i)) [
  | inl same ↦
      let here = (nat_eq_iff r.id i).0 same in
      let (v, e, gone) = expire_one-hit n r w (subst (λ j. IsExpirable j w) (sym here) h) in
      let (m, u, e', gone') =
        expire_each-IsExpired i (suc n) rs v (subst (λ j. IsExpired j v) here gone) in
      (m, u, >>=-done _ _ e ∙ e', gone')
  | inr other ↦
      let (m, v, e, change) = expire_one-done n r w in
      let kept = step-others i r w v other change in
      let (k, u, e', gone) = expire_each-hit i m rs v (h.0, kept ∙ h.1, h.2) (rw other at listed) in
      (k, u, >>=-done _ _ e ∙ e', gone)
]

expire_each-others :
    (i n : ℕ) (rs : List AgreementRow) (w : World)
    → lists i rs ≡ false
    → (m : ℕ) × (v : World) × (expire_each n rs w ≡ done m v) × (found i v.db ≡ found i w.db)
unfolding expire_each
expire_each-others i n [] w h = (n, w, return-done n w, refl)
expire_each-others i n (r ∷ rs) w h =
    let (m, v, e, change) = expire_one-done n r w in
    let (k, u, e', kept) = expire_each-others i m rs v (ground (arith, h)) in
    (k, u, >>=-done _ _ e ∙ e', kept ∙ step-others i r w v (ground (arith, h)) change)

-- The row that is found is among those selected, if it passes the test.
lists-select :
    (p : AgreementRow → Bool) (i : ℕ) (rs : List AgreementRow) (a : AgreementRow)
    → first (λ r. r.id == i) rs ≡ some a
    → p a ≡ true
    → lists i (select p rs) ≡ true
unfolding first select
lists-select p i [] a h t = cc
lists-select p i (r ∷ rs) a h t = ground (arith, lists-select p i rs a)

lists-select_none :
    (p : AgreementRow → Bool) (i : ℕ) (rs : List AgreementRow)
    → any (λ r. nat_eq r.id i && p r) rs ≡ false
    → lists i (select p rs) ≡ false
unfolding select
lists-select_none p i [] h = refl
lists-select_none p i (r ∷ rs) h = ground (arith, lists-select_none p i rs)

expire-leaves-is_overdue :
    (now deadline : ℕ) (a : AgreementRow)
    → a.expires_at ≡ some deadline
    → deadline < now
    → includes (transitions expire).sources a.status ≡ true
    → is_overdue now a ≡ true
unfolding is_overdue transitions
expire-leaves-is_overdue now deadline a e late leaves = ground (arith, e, late, leaves)

-- The sweep has no business with a row that has no deadline or one that has not passed, or that is
-- closed.
abbrev pub IsSpared : ℕ → AgreementRow → Type 0
IsSpared now r =
    (r.expires_at ≡ none)
    ⊎ ((deadline : ℕ) × (r.expires_at ≡ some deadline) × (now ≤ deadline))
    ⊎ (includes (completed ∷ cancelled ∷ rejected ∷ expired ∷ []) r.status ≡ true)

IsSpared-is_overdue : (now : ℕ) (r : AgreementRow) → IsSpared now r → is_overdue now r ≡ false
unfolding is_overdue
IsSpared-is_overdue now r (inl e) = ground (arith, e)
IsSpared-is_overdue now r (inr (inl (deadline, e, h))) = ground (arith, e, h)
IsSpared-is_overdue now r (inr (inr h)) = ground (arith, h)

spared-any :
    (i now : ℕ) (rows : List AgreementRow)
    → All (λ r. r.id ≡ i → IsSpared now r) rows
    → any (λ r. r.id == i && is_overdue now r) rows ≡ false
spared-any i now [] h = refl
spared-any i now (r ∷ rows) (h, hs) = elim (Bool-cases (nat_eq r.id i)) [
  | inl same ↦ ground (
    arith,
    same,
    IsSpared-is_overdue now r (h ((nat_eq_iff r.id i).0 same)),
    spared-any i now rows hs,
  )
  | inr other ↦ ground (arith, other, spared-any i now rows hs)
]

module _ (i : ℕ) (w : World) where
  -- The sweep does not throw; afterwards every agreement whose deadline had passed in a state
  -- with an edge to EXPIRED is EXPIRED.
  pub expire_overdue_agreements-IsExpired :
      (a : AgreementRow) (deadline : ℕ)
      → found i w.db ≡ some a
      → a.expires_at ≡ some deadline
      → deadline < w.now
      → includes (transitions expire).sources a.status ≡ true
      → (n : ℕ) × (v : World) × (expire_overdue_agreements w ≡ done n v)
        × ((b : AgreementRow) × (found i v.db ≡ some b) × (b.status ≡ expired))
  unfolding expire_overdue_agreements find_expired
  expire_overdue_agreements-IsExpired a deadline at dated past leaves =
      let late = expire-leaves-is_overdue w.now deadline a dated past leaves in
      let (n, v, e, gone) =
        expire_each-hit i 0 (select (is_overdue w.now) w.db.agreements) w (a, at, leaves)
          (lists-select (is_overdue w.now) i w.db.agreements a at late) in
      (n, v, >>=-done _ _ current_time-done ∙ >>=-done _ _ (query-done _) ∙ e, gone)

  -- The sweep does not throw, and leaves an agreement as it is if each row with its identifier has no
  -- deadline, or one that has not passed, or is COMPLETED, CANCELLED, REJECTED or EXPIRED.
  pub expire_overdue_agreements-spares :
      All (λ r. r.id ≡ i → IsSpared w.now r) w.db.agreements
      → (n : ℕ) × (v : World) × (expire_overdue_agreements w ≡ done n v)
        × (found i v.db ≡ found i w.db)
  unfolding expire_overdue_agreements find_expired
  expire_overdue_agreements-spares h =
      let (n, v, e, kept) = expire_each-others i 0 (select (is_overdue w.now) w.db.agreements) w (
        lists-select_none (is_overdue w.now) i w.db.agreements
          (spared-any i w.now w.db.agreements h)) in
      (n, v, >>=-done _ _ current_time-done ∙ >>=-done _ _ (query-done _) ∙ e, kept)

-- ===== src/Stamps/Releasing.antt =====
-- Use and release of the stamp of an agreement (StampsService.markUsed and release of
-- api/src/stamps/stamps.service.ts).
use onlineaggrement.Base.{
  ℕ, ◌≡◌, ap, ◌∙◌, inl, inr, Bool, true, not, ◌&&◌, List, [], ◌∷◌, Option, none, some, Option-cases,
  if◌then◌else◌, refl, false, select, any, first, first-holds, All, ◌==◌, ℕ_eq, arith, update_where,
}
use onlineaggrement.Database.{World, available, used, StampPaperRow, StampAllocationRow}
use onlineaggrement.Service.{
  done, return, >>=-done, >>-done, query-done, write-done, current_time-done,
}
use onlineaggrement.Audit.{audit_record}
use onlineaggrement.Stamps.{
  set_status, set_released, live_allocation, mark_used, use_stamp, ReleaseParams, release,
  release_stamp,
}
use onlineaggrement.Stamps.Freed.{
  released, is_held, Distinct-released, below-released, holds-released, first-released,
}
use onlineaggrement.Stamps.Consistent.{
  All-update_where, is_for, holds, Agrees, IsConsistent, Agrees-used,
}

Agrees-released :
    (rows rows' : List StampAllocationRow) (s : ℕ) (stamps : List StampPaperRow)
    → ((i : ℕ) → holds rows' i ≡ (holds rows i && not (i == s)))
    → All (Agrees rows) stamps
    → All
        (Agrees rows')
        (update_where (λ p. p.id == s) (λ p. record p { status = available }) stamps)
Agrees-released rows rows' s stamps frees h =
    All-update_where (Agrees rows) (Agrees rows') _ _ stamps (λ p k t. ground (arith, frees p.id))
      (λ p k t. ground (arith, frees p.id)) h

All-if :
    (b : Bool) (p : StampPaperRow) (stamps : List StampPaperRow)
    → (b ≡ true → p.status ≡ used)
    → All (λ q. q.status ≡ used) stamps
    → All (λ q. q.status ≡ used) (if b then p ∷ stamps else stamps)
All-if true p stamps h k = (h refl, k)
All-if false p stamps h k = k

update-used :
    (s : ℕ) (stamps : List StampPaperRow)
    → All
        (λ p. p.status ≡ used)
        (select
          (λ p. p.id == s)
          (update_where (λ p. p.id == s) (λ p. record p { status = used }) stamps))
unfolding update_where select
update-used s [] = tt
update-used s (p ∷ stamps) = All-if _ _ _ (λ k. ground arith) (update-used s stamps)

any-found :
    (p q : StampAllocationRow → Bool) (rows : List StampAllocationRow) (a : StampAllocationRow)
    → first p rows ≡ some a
    → q a ≡ true
    → any q rows ≡ true
unfolding first
any-found p q [] a h k = cc
any-found p q (x ∷ rows) a h k = ground (arith, any-found p q rows a)

module _ (w : World) (c : IsConsistent w) where
  -- In consistent tables a release does not throw, also of a stamp that is USED; afterwards the
  -- agreement holds no stamp, and the tables are consistent: a stamp is AVAILABLE exactly when no
  -- live allocation is for it.
  pub release-IsConsistent :
      (params : ReleaseParams)
      → (w' : World) × (release params w ≡ done tt w')
        × IsConsistent w'
        × (live_allocation params.agreement_id w'.db ≡ none)
  unfolding release live_allocation set_status set_released release_stamp audit_record return
  release-IsConsistent params = elim (Option-cases (live_allocation params.agreement_id w.db)) [
    | inl free ↦ (w, >>=-done _ _ (query-done _) ∙ ap (λ o. release_stamp params o w) free, c, free)
    | inr (a, h) ↦
        let rows = w.db.stamp_allocations in
        let frees =
          λ (i : ℕ). holds-released params.agreement_id w.now params.reason a i rows c.distinct h in
        (
          _,
          >>=-done _ _ (query-done _)
              ∙ ap (λ o. release_stamp params o w) h
              ∙ >>=-done _ _ current_time-done
              ∙ >>-done _ _ (write-done _)
              ∙ >>-done _ _ (write-done _)
              ∙ write-done _,
          record {
            distinct = Distinct-released a.id w.now params.reason rows c.distinct;
            agrees =
                Agrees-released rows (released a.id w.now params.reason rows) a.stamp_paper_id
                  w.db.stamp_papers frees c.agrees;
            below = below-released a.id w.now params.reason w.next_id rows c.below;
          },
          first-released params.agreement_id w.now params.reason a rows c.distinct h,
        )
  ]

  -- Using the stamp that an agreement holds does not throw, keeps the tables consistent, and
  -- leaves every row of that stamp with the status USED.
  pub mark_used-IsConsistent :
      (agreement_id : ℕ) (actor_id : Option ℕ) (a : StampAllocationRow)
      → live_allocation agreement_id w.db ≡ some a
      → (w' : World) × (mark_used agreement_id actor_id w ≡ done tt w')
        × IsConsistent w'
        × All (λ p. p.status ≡ used) (select (λ p. p.id == a.stamp_paper_id) w'.db.stamp_papers)
  unfolding mark_used live_allocation set_status use_stamp audit_record return
  mark_used-IsConsistent agreement_id actor_id a h =
      let rows = w.db.stamp_allocations in
      let held =
        any-found (is_held agreement_id) (is_for a.stamp_paper_id) rows a h
          (ground (arith, first-holds (is_held agreement_id) rows a h)) in
      (
        _,
        >>=-done _ _ (query-done _)
            ∙ ap (λ o. use_stamp agreement_id actor_id o w) h
            ∙ >>-done _ _ (write-done _)
            ∙ write-done _,
        record {
          distinct = c.distinct;
          agrees = Agrees-used rows a.stamp_paper_id w.db.stamp_papers held c.agrees;
          below = c.below;
        },
        update-used a.stamp_paper_id w.db.stamp_papers,
      )

-- ===== src/Stamps/Allocating.antt =====
-- Allocation of a stamp to an agreement (StampsService.allocate of
-- api/src/stamps/stamps.service.ts), on every branch.
use onlineaggrement.Base.{
  ℕ, suc, ◌<◌, ◌≡◌, refl, sym, ap, ◌∙◌, subst, subst₂, ◌⊎◌, inl, inr, Bool, true, false, [], ◌∷◌,
  Option, none, some, Option-cases, Bool-cases, any, first, first-holds, first-update_where, insert,
  All-insert, All-imp, ◌==◌, ℕ_eq, arith,
}
use onlineaggrement.Errors.{DomainError, not_found, conflict}
use onlineaggrement.Database.{
  Db, World, allocated, StampPaperRow, StampAllocationRow, num, stamp_allocated, AuditRow,
}
use onlineaggrement.Service.{
  done, fail, return, fresh_id, >>=-done, >>=-fail, >>-done, >>-fail, query-done, write-done,
  or_throw-some, or_throw-none, throw_if-true, throw_if-false, transaction-done, transaction-fail,
  done-injective, fail-injective, done-ne-fail,
}
use onlineaggrement.Audit.{audit_row, audit_record}
use onlineaggrement.Stamps.{
  is_available, clashes, set_status, text_data, AllocateParams, new_allocation, insert_allocation,
  allocate_in, allocate,
}
use onlineaggrement.Stamps.Consistent.{Distinct-insert, Agrees-allocated, IsConsistent}

abbrev pub stamp_at : ℕ → Db → Option StampPaperRow
stamp_at i d = first (λ p. p.id == i) d.stamp_papers

module _ (params : AllocateParams) (w : World) where
  -- The row that the allocation would insert, and what would stand in its way.
  abbrev pub request_row : StampAllocationRow
  request_row = new_allocation params w.next_id

  abbrev pub is_taken : Bool
  is_taken = any (λ b. clashes b request_row) w.db.stamp_allocations

  abbrev audit_of : StampPaperRow → AuditRow
  audit_of stamp =
      audit_row stamp_allocated
        (("stampId", num params.stamp_id)
          ∷ ("stampNumber", text_data stamp.stamp_number)
          ∷ ("allocationId", num w.next_id)
          ∷ [])
        (record {
          agreement_id = some params.agreement_id;
          agreement_version = none;
          actor_id = some params.actor_id;
          ip_address = none;
          user_agent = none;
        })

  abbrev pub granted : StampPaperRow → World
  granted stamp = record w {
    next_id = suc w.next_id;
    db =
        record (set_status params.stamp_id allocated
          (record (w.db) { stamp_allocations = insert request_row w.db.stamp_allocations })) {
            audit_logs = insert (audit_of stamp) w.db.audit_logs;
          };
  }

  allocate_in-absent :
      stamp_at params.stamp_id w.db ≡ none → allocate_in params w ≡ fail (not_found "Stamp paper") w
  unfolding allocate_in
  allocate_in-absent h = >>=-done _ _ (query-done _) ∙ >>=-fail _ _ (or_throw-none _ h)

  module _ (stamp : StampPaperRow) (h : stamp_at params.stamp_id w.db ≡ some stamp) where
    allocate_in-unavailable :
        is_available stamp.status ≡ false → allocate_in params w ≡ fail (conflict (some "BR-006")) w
    unfolding allocate_in
    allocate_in-unavailable k =
        >>=-done _ _ (query-done _)
        ∙ >>=-done _ _ (or_throw-some _ h)
        ∙ >>-fail _ _ (throw_if-true _ (rw k))

    allocate_in-taken :
        is_available stamp.status ≡ true
        → is_taken ≡ true
        → allocate_in params w
          ≡ fail (conflict (some "BR-006")) (record w { next_id = suc w.next_id })
    unfolding allocate_in insert_allocation fresh_id
    allocate_in-taken k t =
        >>=-done _ _ (query-done _)
        ∙ >>=-done _ _ (or_throw-some _ h)
        ∙ >>-done _ _ (throw_if-false _ (rw k))
        ∙ >>=-done _ _ refl
        ∙ >>-fail _ _ (>>=-done _ _ (query-done _) ∙ >>-fail _ _ (throw_if-true _ t))

    allocate_in-granted :
        is_available stamp.status ≡ true
        → is_taken ≡ false
        → allocate_in params w ≡ done w.next_id (granted stamp)
    unfolding allocate_in insert_allocation fresh_id audit_record return set_status
    allocate_in-granted k t =
        >>=-done _ _ (query-done _)
        ∙ >>=-done _ _ (or_throw-some _ h)
        ∙ >>-done _ _ (throw_if-false _ (rw k))
        ∙ >>=-done _ _ refl
        ∙ >>-done _ _
            (>>=-done _ _ (query-done _) ∙ >>-done _ _ (throw_if-false _ t) ∙ write-done _)
        ∙ >>-done _ _ (write-done _)
        ∙ >>-done _ _ (write-done _)

  -- What an allocation that returns has found and done.
  pub record IsGrant (w' : World) (id : ℕ) : Type 0 where
    pub stamp : StampPaperRow
    pub was : stamp_at params.stamp_id w.db ≡ some stamp
    pub free : is_available stamp.status ≡ true
    pub untaken : is_taken ≡ false
    pub fresh : id ≡ w.next_id
    pub after : w' ≡ granted stamp

  granted-IsGrant :
      (stamp : StampPaperRow)
      → stamp_at params.stamp_id w.db ≡ some stamp
      → is_available stamp.status ≡ true
      → is_taken ≡ false
      → IsGrant (granted stamp) w.next_id
  granted-IsGrant stamp h k t = record {
    stamp = stamp;
    was = h;
    free = k;
    untaken = t;
    fresh = refl;
    after = refl;
  }

  pub allocate-IsGrant : (w' : World) (id : ℕ) → allocate params w ≡ done id w' → IsGrant w' id
  unfolding allocate
  allocate-IsGrant w' id e = elim (Option-cases (stamp_at params.stamp_id w.db)) [
    | inl absent ↦ absurd (done-ne-fail (sym e ∙ transaction-fail _ (allocate_in-absent absent)))
    | inr (stamp, h) ↦ elim (Bool-cases (is_available stamp.status)) [
      | inr k ↦
          absurd (done-ne-fail (sym e ∙ transaction-fail _ (allocate_in-unavailable stamp h k)))
      | inl k ↦ elim (Bool-cases is_taken) [
        | inl t ↦ absurd (done-ne-fail (sym e ∙ transaction-fail _ (allocate_in-taken stamp h k t)))
        | inr t ↦
            let (same_id, same_world) =
              done-injective (sym (transaction-done _ (allocate_in-granted stamp h k t)) ∙ e) in
            subst₂ IsGrant same_world same_id (granted-IsGrant stamp h k t)
      ]
    ]
  ]

  -- An allocation that throws leaves the database as it was. It throws that the stamp is not
  -- found when there is none, and a conflict under BR-006 when the stamp is not AVAILABLE or a
  -- live allocation of the stamp or of the agreement stands in the way; and on nothing else.
  pub allocate-fails :
      (w' : World) (x : DomainError)
      → allocate params w ≡ fail x w'
      → (w'.db ≡ w.db)
        × ((stamp_at params.stamp_id w.db ≡ none) × (x ≡ not_found "Stamp paper")
            ⊎ ((stamp : StampPaperRow) × (stamp_at params.stamp_id w.db ≡ some stamp)
                × ((is_available stamp.status ≡ false) ⊎ (is_taken ≡ true))
                × (x ≡ conflict (some "BR-006"))))
  unfolding allocate
  allocate-fails w' x e = elim (Option-cases (stamp_at params.stamp_id w.db)) [
    | inl absent ↦
        let (error, world) =
          fail-injective (sym (transaction-fail _ (allocate_in-absent absent)) ∙ e) in
        (ap (λ v. v.db) (sym world), inl (absent, sym error))
    | inr (stamp, h) ↦ elim (Bool-cases (is_available stamp.status)) [
      | inr k ↦
          let (error, world) =
            fail-injective (sym (transaction-fail _ (allocate_in-unavailable stamp h k)) ∙ e) in
          (ap (λ v. v.db) (sym world), inr (stamp, h, inl k, sym error))
      | inl k ↦ elim (Bool-cases is_taken) [
        | inl t ↦
            let (error, world) =
              fail-injective (sym (transaction-fail _ (allocate_in-taken stamp h k t)) ∙ e) in
            (ap (λ v. v.db) (sym world), inr (stamp, h, inr t, sym error))
        | inr t ↦
            absurd (done-ne-fail (sym (transaction-done _ (allocate_in-granted stamp h k t)) ∙ e))
      ]
    ]
  ]

  granted-IsConsistent :
      (stamp : StampPaperRow) → is_taken ≡ false → IsConsistent w → IsConsistent (granted stamp)
  unfolding set_status new_allocation
  granted-IsConsistent stamp t c = record {
    distinct = Distinct-insert w.db.stamp_allocations request_row c.distinct t;
    agrees = Agrees-allocated w.db.stamp_allocations request_row w.db.stamp_papers refl c.agrees;
    below =
        All-insert (λ a. a.id < suc w.next_id) w.db.stamp_allocations request_row
          (All-imp (λ a. a.id < w.next_id) (λ a. a.id < suc w.next_id) w.db.stamp_allocations
            (λ a k. omega arith) c.below)
          (omega arith);
  }

  -- An allocation that returns was given a stamp that was AVAILABLE; it is ALLOCATED afterwards,
  -- and the tables stay consistent: live allocations are apart and every stamp's status agrees
  -- with them.
  pub allocate-IsConsistent :
      (w' : World) (id : ℕ)
      → IsConsistent w
      → allocate params w ≡ done id w'
      → IsConsistent w'
        × ((stamp : StampPaperRow) × (stamp_at params.stamp_id w.db ≡ some stamp)
            × (is_available stamp.status ≡ true)
            × (stamp_at params.stamp_id w'.db ≡ some (record stamp { status = allocated })))
  unfolding set_status
  allocate-IsConsistent w' id c e =
      let g = allocate-IsGrant w' id e in
      (
        subst IsConsistent (sym g.after) (granted-IsConsistent g.stamp g.untaken c),
        (
          g.stamp,
          g.was,
          g.free,
          ap (λ v. stamp_at params.stamp_id v.db) g.after
              ∙ first-update_where (λ p. p.id == params.stamp_id) (λ p. p.id == params.stamp_id)
                  (λ p. record p { status = allocated }) w.db.stamp_papers g.stamp (λ x k. k)
                  (λ x. refl) (first-holds _ w.db.stamp_papers g.stamp g.was) g.was,
        ),
      )

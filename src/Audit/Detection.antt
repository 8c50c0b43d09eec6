-- ===== src/Audit/Detection.antt =====
-- The chains that the trigger builds, and their verification (audit_logs_chain of
-- api/migrations/009_audit_immutability.ts, verifyChain of api/src/audit/audit.service.ts).
use onlineaggrement.Base.{
  ℕ, suc, ◌≡◌, ◌↔◌, inl, inr, refl, sym, ap, ◌∙◌, subst, true, false, List, [], ◌∷◌, Option, none,
  some, any, select, first, insert, length, ℕ_eq, arith, Bool-cases, Option-cases,
  first-update_where, first-update_where_miss, first-holds, select-insert_hit, select-insert_miss,
  first-any, first-none-any, first-insert_hit, first-insert_miss, length-insert,
}
use onlineaggrement.Database.{AuditRow}
use onlineaggrement.Audit.Chain.{
  ChainedRow, ChainHead, Chains, key_eq, is_head, in_scope, intact, begin_chain, hash_of, chained,
  advance_head, audit_logs_chain, first_break, check_head, verdict_of, verify_chain,
}

key_eq_iff : (k l : Option ℕ) → (key_eq k l ≡ true) ↔ (k ≡ l)
key_eq_iff none none = ground arith
key_eq_iff none (some j) = ground arith
key_eq_iff (some i) none = ground arith
key_eq_iff (some i) (some j) = ground arith

module _ (zero_hash : ℕ) (digest : ℕ → AuditRow → ℕ → ℕ) where
  -- The hash of the last record.
  unfoldable pub last_hash : ℕ → List ChainedRow → ℕ
  last_hash prev [] = prev
  last_hash prev (r ∷ rows) = last_hash r.row_hash rows

  first_break-insert :
      (prev : ℕ) (rows : List ChainedRow) (id : ℕ) (r : AuditRow) (now : ℕ)
      → first_break zero_hash digest prev rows ≡ none
      → first_break zero_hash digest prev
          (insert (chained zero_hash digest id r now (last_hash prev rows)) rows)
        ≡ none
  unfolding first_break chained last_hash
  first_break-insert prev [] id r now h = ground arith
  first_break-insert prev (x ∷ rows) id r now h =
      ground (arith, first_break-insert x.row_hash rows id r now)

  last_hash-insert :
      (prev : ℕ) (rows : List ChainedRow) (r : ChainedRow)
      → last_hash prev (insert r rows) ≡ r.row_hash
  unfolding last_hash
  last_hash-insert prev [] r = refl
  last_hash-insert prev (x ∷ rows) r = last_hash-insert x.row_hash rows r

abbrev pub count_of : Option ChainHead → ℕ
count_of none = 0
count_of (some h) = h.record_count

module _ (zero_hash : ℕ) (digest : ℕ → AuditRow → ℕ → ℕ) where
  begin_chain-some :
      (key : Option ℕ) (heads : List ChainHead)
      → (h : ChainHead) × (first (is_head key) (begin_chain zero_hash digest key heads) ≡ some h)
        × (h.head_hash ≡ hash_of zero_hash digest (first (is_head key) heads))
        × (h.record_count ≡ count_of (first (is_head key) heads))
  unfolding begin_chain
  begin_chain-some key heads = elim (Option-cases (first (is_head key) heads)) [
    | inr (h, e) ↦ (h, rw (first-any _ heads h e) e, rw e, rw e)
    | inl absent ↦ (
      record { key = key; head_hash = zero_hash; record_count = 0 },
      rw (first-none-any _ heads absent)
          (first-insert_hit _ heads _ absent ((key_eq_iff key key).1 refl)),
      rw absent,
      rw absent,
    )
  ]

  begin_chain-other :
      (key other : Option ℕ) (heads : List ChainHead)
      → key_eq key other ≡ false
      → first (is_head other) (begin_chain zero_hash digest key heads) ≡ first (is_head other) heads
  unfolding begin_chain
  begin_chain-other key other heads apart = elim (Bool-cases (any (is_head key) heads)) [
    | inl there ↦ rw there
    | inr absent ↦ rw absent (first-insert_miss _ heads _ apart)
  ]

  -- The chain of a key is whole, and its head agrees with it.
  pub record IsLinked (key : Option ℕ) (d : Chains) : Type 0 where
    pub whole : first_break zero_hash digest zero_hash (select (in_scope key) d.logs) ≡ none
    pub headed :
        hash_of zero_hash digest (first (is_head key) d.heads)
        ≡ last_hash zero_hash digest zero_hash (select (in_scope key) d.logs)
    pub counted : count_of (first (is_head key) d.heads) ≡ length (select (in_scope key) d.logs)

  module _ (id : ℕ) (r : AuditRow) (now : ℕ) (d : Chains) where
    abbrev begun : List ChainHead
    begun = begin_chain zero_hash digest r.agreement_id d.heads

    abbrev new_row : ChainedRow
    new_row =
        chained zero_hash digest id r now
          (hash_of zero_hash digest (first (is_head r.agreement_id) begun))

    IsLinked-same :
        IsLinked r.agreement_id d
        → IsLinked r.agreement_id (audit_logs_chain zero_hash digest id r now d)
    unfolding audit_logs_chain chained advance_head
    IsLinked-same c =
        let rows = select (in_scope r.agreement_id) d.logs in
        let (h, there, hash, count) = begin_chain-some r.agreement_id d.heads in
        let prev = ap (hash_of zero_hash digest) there ∙ hash ∙ c.headed in
        let scoped =
          select-insert_hit (in_scope r.agreement_id) d.logs new_row
            ((key_eq_iff r.agreement_id r.agreement_id).1 refl) in
        let advanced =
          first-update_where (is_head r.agreement_id) (is_head r.agreement_id)
            (advance_head zero_hash digest new_row.row_hash) begun h (λ x k. k) (λ x. refl)
            (first-holds _ begun h there) there in
        record {
          whole =
              ap (first_break zero_hash digest zero_hash) scoped
              ∙ ap
                  (λ p.
                    first_break zero_hash digest zero_hash
                      (insert (chained zero_hash digest id r now p) rows))
                  prev
              ∙ first_break-insert zero_hash digest zero_hash rows id r now c.whole;
          headed =
              ap (hash_of zero_hash digest) advanced
              ∙ sym (
                  ap (last_hash zero_hash digest zero_hash) scoped
                  ∙ last_hash-insert zero_hash digest zero_hash rows new_row);
          counted =
              ap count_of advanced
              ∙ ap suc (count ∙ c.counted)
              ∙ sym (ap length scoped ∙ length-insert rows new_row);
        }

    IsLinked-other :
        (other : Option ℕ)
        → key_eq r.agreement_id other ≡ false
        → IsLinked other d
        → IsLinked other (audit_logs_chain zero_hash digest id r now d)
    unfolding audit_logs_chain chained advance_head
    IsLinked-other other apart c =
        let scoped = select-insert_miss (in_scope other) d.logs new_row apart in
        let head =
          first-update_where_miss (is_head other) (is_head r.agreement_id)
            (advance_head zero_hash digest new_row.row_hash) begun
            (λ x k. ap (λ l. key_eq l other) ((key_eq_iff x.key r.agreement_id).0 k) ∙ apart)
            (λ x. refl)
          ∙ begin_chain-other r.agreement_id other d.heads apart in
        record {
          whole = ap (first_break zero_hash digest zero_hash) scoped ∙ c.whole;
          headed =
              ap (hash_of zero_hash digest) head
              ∙ c.headed
              ∙ sym (ap (last_hash zero_hash digest zero_hash) scoped);
          counted = ap count_of head ∙ c.counted ∙ sym (ap length scoped);
        }

    -- An insertion keeps every chain linked.
    audit_logs_chain-IsLinked :
        ((key : Option ℕ) → IsLinked key d)
        → (key : Option ℕ) → IsLinked key (audit_logs_chain zero_hash digest id r now d)
    audit_logs_chain-IsLinked c key = elim (Bool-cases (key_eq r.agreement_id key)) [
      | inl same ↦
          subst (λ k. IsLinked k (audit_logs_chain zero_hash digest id r now d))
            ((key_eq_iff r.agreement_id key).0 same) (IsLinked-same (c r.agreement_id))
      | inr apart ↦ IsLinked-other key apart (c key)
    ]

  check_head-counted :
      (o : Option ChainHead) (n : ℕ) → count_of o ≡ n → check_head zero_hash digest o n ≡ intact n
  unfolding check_head
  check_head-counted none n h = refl
  check_head-counted (some x) n h = ground arith

  IsLinked-verify_chain :
      (key : Option ℕ) (d : Chains)
      → IsLinked key d
      → verify_chain zero_hash digest key d ≡ intact (length (select (in_scope key) d.logs))
  unfolding verify_chain verdict_of
  IsLinked-verify_chain key d c =
      ap
        (λ o.
          verdict_of zero_hash digest o (first (is_head key) d.heads)
            (length (select (in_scope key) d.logs)))
        c.whole
      ∙ check_head-counted (first (is_head key) d.heads) _ c.counted

  -- The chains after a list of records, the first of them first.
  unfoldable pub append_all : List (ℕ × AuditRow × ℕ) → Chains → Chains
  append_all [] d = d
  append_all ((id, r, now) ∷ rows) d =
      append_all rows (audit_logs_chain zero_hash digest id r now d)

  append_all-IsLinked :
      (rows : List (ℕ × AuditRow × ℕ)) (d : Chains)
      → ((key : Option ℕ) → IsLinked key d)
      → (key : Option ℕ) → IsLinked key (append_all rows d)
  unfolding append_all
  append_all-IsLinked [] d c key = c key
  append_all-IsLinked ((id, r, now) ∷ rows) d c key =
      append_all-IsLinked rows (audit_logs_chain zero_hash digest id r now d)
        (audit_logs_chain-IsLinked id r now d c) key

  empty-IsLinked : (key : Option ℕ) → IsLinked key (record { logs = []; heads = [] })
  unfolding select first first_break last_hash
  empty-IsLinked key = record { whole = refl; headed = refl; counted = refl }

  -- Whatever records are appended, to whichever chains, every chain is verified as intact, with the
  -- number of its records.
  pub append_all-verify_chain :
      (rows : List (ℕ × AuditRow × ℕ)) (key : Option ℕ)
      → verify_chain zero_hash digest key (append_all rows (record { logs = []; heads = [] }))
        ≡ intact (
            length
              (select (in_scope key) (append_all rows (record { logs = []; heads = [] })).logs))
  append_all-verify_chain rows key =
      IsLinked-verify_chain key _
        (append_all-IsLinked rows (record { logs = []; heads = [] }) empty-IsLinked key)

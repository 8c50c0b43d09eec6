-- ===== src/Audit/Verification.antt =====
-- The verdict on a chain (verifyChain of
-- api/src/audit/audit.service.ts).
use onlineaggrement.Base.{
  ℕ, suc, ◌≡◌, ◌↔◌, refl, ap, ◌∙◌, List, [], ◌∷◌, Option, none, some, map, select, first, length,
  ℕ_eq, arith,
}
use onlineaggrement.Database.{AuditRow}
use onlineaggrement.Audit.Chain.{
  ChainedRow, ChainHead, Chains, is_head, hashed, in_scope, Verdict, intact, first_break,
  check_head, verdict_of, verify_chain, hashed,
}

module _ (zero_hash : ℕ) (digest : ℕ → AuditRow → ℕ → ℕ) where
  -- Every record has the hash of its content, and names the hash of the record before it.
  abbrev pub IsChain : ℕ → List ChainedRow → Type 0
  IsChain prev [] = Unit
  IsChain prev (r ∷ rows) =
      (digest r.prev_hash (hashed r.record_of) r.created_at ≡ r.row_hash)
      × (r.prev_hash ≡ prev)
      × IsChain r.row_hash rows

  -- A head that is there has counted the records.
  abbrev pub IsCounted : Option ChainHead → ℕ → Type 0
  IsCounted none n = Unit
  IsCounted (some h) n = h.record_count ≡ n

  first_break-none_iff :
      (prev : ℕ) (rows : List ChainedRow)
      → (first_break zero_hash digest prev rows ≡ none) ↔ IsChain prev rows
  unfolding first_break
  first_break-none_iff prev [] = (λ h. tt, λ h. refl)
  first_break-none_iff prev (r ∷ rows) = ground (arith, first_break-none_iff r.row_hash rows)

  first_break-ne_intact :
      (prev : ℕ) (rows : List ChainedRow) (n : ℕ)
      → first_break zero_hash digest prev rows ≡ some (intact n)
      → ⊥
  unfolding first_break
  first_break-ne_intact prev [] n h = cc
  first_break-ne_intact prev (r ∷ rows) n h =
      ground (arith, first_break-ne_intact r.row_hash rows n)

  check_head-intact_iff :
      (o : Option ChainHead) (m n : ℕ)
      → (check_head zero_hash digest o m ≡ intact n) ↔ ((n ≡ m) × IsCounted o n)
  unfolding check_head
  check_head-intact_iff none m n = ground arith
  check_head-intact_iff (some h) m n = ground arith

  verdict_of-intact_iff :
      (o : Option Verdict) (head : Option ChainHead) (m n : ℕ) (C : Type 0)
      → ((o ≡ none) ↔ C)
      → (o ≡ some (intact n) → ⊥)
      → (verdict_of zero_hash digest o head m ≡ intact n) ↔ (C × (n ≡ m) × IsCounted head n)
  unfolding verdict_of
  verdict_of-intact_iff none head m n C whole sound = (
    λ h.
        let (count, counted) = (check_head-intact_iff head m n).0 h in
        (whole.0 refl, count, counted),
    λ (c, count, counted). (check_head-intact_iff head m n).1 (count, counted),
  )
  verdict_of-intact_iff (some v) head m n C whole sound =
      (λ h. absurd (sound (ap some h)), λ (c, count, counted). cc (whole.1 c))

  -- A chain is verified as intact exactly when every record has the hash of its content and names
  -- the hash of its predecessor, and the head of the chain, where it is there, has counted the
  -- records; the number reported is that of the records.
  pub verify_chain-intact_iff :
      (key : Option ℕ) (d : Chains) (n : ℕ)
      → (verify_chain zero_hash digest key d ≡ intact n) ↔ (
          IsChain zero_hash (select (in_scope key) d.logs)
          × (n ≡ length (select (in_scope key) d.logs))
          × IsCounted (first (is_head key) d.heads) n)
  unfolding verify_chain
  verify_chain-intact_iff key d n =
      verdict_of-intact_iff _ _ _ n _
        (first_break-none_iff zero_hash (select (in_scope key) d.logs))
        (first_break-ne_intact zero_hash (select (in_scope key) d.logs) n)

-- The same record without the address and the agent of the user.
abbrev pub anonymous : ChainedRow → ChainedRow
anonymous r = record r { record_of = record (r.record_of) { ip_address = none; user_agent = none } }

select-anonymous :
    (key : Option ℕ) (rows : List ChainedRow)
    → select (in_scope key) (map anonymous rows) ≡ map anonymous (select (in_scope key) rows)
unfolding select
select-anonymous key [] = refl
select-anonymous key (r ∷ rows) = ground (arith, select-anonymous key rows)

length-anonymous : (rows : List ChainedRow) → length (map anonymous rows) ≡ length rows
length-anonymous [] = refl
length-anonymous (r ∷ rows) = ap suc (length-anonymous rows)

module _ (zero_hash : ℕ) (digest : ℕ → AuditRow → ℕ → ℕ) where
  first_break-anonymous :
      (prev : ℕ) (rows : List ChainedRow)
      → first_break zero_hash digest prev (map anonymous rows)
        ≡ first_break zero_hash digest prev rows
  unfolding first_break hashed
  first_break-anonymous prev [] = refl
  first_break-anonymous prev (r ∷ rows) = ground (arith, first_break-anonymous r.row_hash rows)

  -- The verdict on a chain does not change when the addresses and the agents of the users are
  -- erased from all its records.
  pub verify_chain-anonymous :
      (key : Option ℕ) (d : Chains)
      → verify_chain zero_hash digest key (record d { logs = map anonymous d.logs })
        ≡ verify_chain zero_hash digest key d
  unfolding verify_chain
  verify_chain-anonymous key d =
      ap
        (λ rows.
          verdict_of zero_hash digest (first_break zero_hash digest zero_hash rows)
            (first (is_head key) d.heads) (length rows))
        (select-anonymous key d.logs)
      ∙ ap
          (λ o.
            verdict_of zero_hash digest o (first (is_head key) d.heads)
              (length (map anonymous (select (in_scope key) d.logs))))
          (first_break-anonymous zero_hash (select (in_scope key) d.logs))
      ∙ ap
          (λ n.
            verdict_of zero_hash digest
              (first_break zero_hash digest zero_hash (select (in_scope key) d.logs))
              (first (is_head key) d.heads) n)
          (length-anonymous (select (in_scope key) d.logs))

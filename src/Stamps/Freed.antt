-- ===== src/Stamps/Freed.antt =====
-- The table of allocations after a release (StampsService.release of
-- api/src/stamps/stamps.service.ts).
use onlineaggrement.Base.{
  ℕ, ◌<◌, ◌≡◌, refl, subst, inl, inr, Bool, true, false, not, ◌&&◌, List, [], ◌∷◌, none, some,
  Bool-cases, any, first, first-holds, All, ◌==◌, ℕ_eq, arith, update_where, Text,
}
use onlineaggrement.Database.{StampAllocationRow}
use onlineaggrement.Stamps.{is_live, clashes}
use onlineaggrement.Stamps.Consistent.{All-update_where, Distinct, holds}

-- The row with the identifier is released.
abbrev pub released : ℕ → ℕ → Text → List StampAllocationRow → List StampAllocationRow
released id now reason =
    update_where (λ a. a.id == id)
      (λ a. record a { released_at = some now; released_reason = some reason })

module _ (id now : ℕ) (reason : Text) where
  clashes-released :
      (a b : StampAllocationRow) (rows : List StampAllocationRow)
      → any (clashes a) rows ≡ false
      → (any (clashes a) (released id now reason rows) ≡ false)
        × (any
              (clashes (record a { released_at = some now; released_reason = some reason }))
              (released id now reason rows)
            ≡ false)
  unfolding update_where clashes
  clashes-released a b [] h = (refl, refl)
  clashes-released a b (x ∷ rows) h = ground (arith, clashes-released a b rows)

  pub Distinct-released :
      (rows : List StampAllocationRow) → Distinct rows → Distinct (released id now reason rows)
  unfolding update_where
  Distinct-released [] h = tt
  Distinct-released (a ∷ rows) (h, hs) = elim (Bool-cases (a.id == id)) [
    | inl t ↦ rw t ((clashes-released a a rows h).1, Distinct-released rows hs)
    | inr t ↦ rw t ((clashes-released a a rows h).0, Distinct-released rows hs)
  ]

  pub below-released :
      (n : ℕ) (rows : List StampAllocationRow)
      → All (λ a. a.id < n) rows
      → All (λ a. a.id < n) (released id now reason rows)
  below-released n rows h =
      All-update_where (λ a. a.id < n) (λ a. a.id < n) _ _ rows (λ a k t. k) (λ a k t. k) h

  -- Rows that do not clash with the one released are left, and are for other stamps.
  released-apart :
      (a : StampAllocationRow) (i : ℕ) (rows : List StampAllocationRow)
      → a.id ≡ id
      → is_live a ≡ true
      → any (clashes a) rows ≡ false
      → (holds (released id now reason rows) i ≡ holds rows i)
        × (holds rows a.stamp_paper_id ≡ false)
  unfolding update_where clashes
  released-apart a i [] same live h = (refl, refl)
  released-apart a i (x ∷ rows) same live h = ground (arith, released-apart a i rows same live)

some_cancel : {x y : StampAllocationRow} → some x ≡ some y → x ≡ y
some_cancel h = cc

any-first :
    (p q : StampAllocationRow → Bool) (rows : List StampAllocationRow) (a : StampAllocationRow)
    → first p rows ≡ some a
    → any q rows ≡ false
    → q a ≡ false
unfolding first
any-first p q [] a h k = cc
any-first p q (x ∷ rows) a h k = ground (arith, any-first p q rows a)

abbrev pub is_held : ℕ → StampAllocationRow → Bool
is_held agreement_id x = x.agreement_id == agreement_id && is_live x

module _ (agreement_id now : ℕ) (reason : Text) (a : StampAllocationRow) where
  -- The release frees the stamp of the allocation and no other.
  pub holds-released :
      (i : ℕ) (rows : List StampAllocationRow)
      → Distinct rows
      → first (is_held agreement_id) rows ≡ some a
      → holds (released a.id now reason rows) i ≡ (holds rows i && not (i == a.stamp_paper_id))
  unfolding first update_where clashes
  holds-released i [] d h = cc
  holds-released i (x ∷ rows) (k, d) h = elim (Bool-cases (is_held agreement_id x)) [
    | inl hit ↦
        let same : x ≡ a = some_cancel (rw (hit, first) at h) in
        subst
          (λ b.
            holds (released b.id now reason (x ∷ rows)) i
            ≡ (holds (x ∷ rows) i && not (i == b.stamp_paper_id)))
          same
          (ground
            (arith, hit, released-apart x.id now reason x i rows refl (ground (arith, hit)) k))
    | inr miss ↦
        let later : first (is_held agreement_id) rows ≡ some a = rw (miss, first) at h in
        ground (
          arith,
          first-holds (is_held agreement_id) rows a later,
          any-first (is_held agreement_id) (clashes x) rows a later k,
          holds-released i rows d later,
        )
  ]

  none-apart :
      (rows : List StampAllocationRow)
      → a.agreement_id ≡ agreement_id
      → is_live a ≡ true
      → any (clashes a) rows ≡ false
      → first (is_held agreement_id) (released a.id now reason rows) ≡ none
  unfolding first update_where clashes
  none-apart [] at live h = refl
  none-apart (x ∷ rows) at live h = ground (arith, none-apart rows at live)

  -- After the release the agreement holds no stamp.
  pub first-released :
      (rows : List StampAllocationRow)
      → Distinct rows
      → first (is_held agreement_id) rows ≡ some a
      → first (is_held agreement_id) (released a.id now reason rows) ≡ none
  unfolding first update_where clashes
  first-released [] d h = cc
  first-released (x ∷ rows) (k, d) h = elim (Bool-cases (is_held agreement_id x)) [
    | inl hit ↦
        let same : x ≡ a = some_cancel (rw (hit, first) at h) in
        let clear : any (clashes a) rows ≡ false =
          subst (λ b. any (clashes b) rows ≡ false) same k in
        let held : is_held agreement_id a ≡ true =
          subst (λ b. is_held agreement_id b ≡ true) same hit in
        ground
          (arith, same, held, none-apart rows (ground (arith, held)) (ground (arith, held)) clear)
    | inr miss ↦
        let later : first (is_held agreement_id) rows ≡ some a = rw (miss, first) at h in
        ground (
          arith,
          first-holds (is_held agreement_id) rows a later,
          any-first (is_held agreement_id) (clashes x) rows a later k,
          first-released rows d later,
        )
  ]

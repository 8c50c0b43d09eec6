-- ===== src/Stamps/Consistent.antt =====
-- The invariant of the stamp tables (api/src/stamps/stamps.service.ts and the indexes of
-- api/migrations/005_stamps.ts).
use onlineaggrement.Base.{
  Bool-cases, inl, inr, ℕ, ◌≡◌, refl, ◌<◌, Bool, true, false, not, ◌&&◌, List, [], ◌∷◌, any,
  any-append, insert, update_where, All, ◌==◌, ℕ_eq, arith,
}
use onlineaggrement.Database.{World, StampPaperRow, StampAllocationRow, allocated, used}
use onlineaggrement.Stamps.{is_available, is_live, clashes}

-- No two rows clash.
abbrev pub Distinct : List StampAllocationRow → Type 0
Distinct [] = Unit
Distinct (a ∷ rows) = (any (clashes a) rows ≡ false) × Distinct rows

abbrev pub is_for : ℕ → StampAllocationRow → Bool
is_for stamp_id a = is_live a && a.stamp_paper_id == stamp_id

-- Some live allocation is for the stamp.
abbrev pub holds : List StampAllocationRow → ℕ → Bool
holds rows stamp_id = any (is_for stamp_id) rows

-- A stamp is AVAILABLE exactly when no live allocation is for it.
abbrev pub Agrees : List StampAllocationRow → StampPaperRow → Type 0
Agrees rows p = is_available p.status ≡ not (holds rows p.id)

pub record IsConsistent (w : World) : Type 0 where
  pub distinct : Distinct w.db.stamp_allocations
  pub agrees : All (Agrees w.db.stamp_allocations) w.db.stamp_papers
  -- The identifiers were all handed out.
  pub below : All (λ a. a.id < w.next_id) w.db.stamp_allocations

pub Distinct-insert :
    (rows : List StampAllocationRow) (b : StampAllocationRow)
    → Distinct rows
    → any (λ a. clashes a b) rows ≡ false
    → Distinct (insert b rows)
Distinct-insert [] b h k = (refl, tt)
Distinct-insert (a ∷ rows) b (h, hs) k =
    (ground (arith, any-append (clashes a) rows (b ∷ [])), Distinct-insert rows b hs (ground arith))

pub All-update_where {κ μ} :
    {A : Type 0} (P : A → Type κ) (Q : A → Type μ) (q : A → Bool) (f : A → A) (xs : List A)
    → ((x : A) → P x → q x ≡ true → Q (f x))
    → ((x : A) → P x → q x ≡ false → Q x)
    → All P xs
    → All Q (update_where q f xs)
unfolding update_where
All-update_where P Q q f [] hit miss h = tt
All-update_where P Q q f (x ∷ xs) hit miss (h, hs) = elim (Bool-cases (q x)) [
  | inl t ↦ rw t (hit x h t, All-update_where P Q q f xs hit miss hs)
  | inr t ↦ rw t (miss x h t, All-update_where P Q q f xs hit miss hs)
]

-- A live allocation for a free stamp is added, and the stamp is marked.
pub Agrees-allocated :
    (rows : List StampAllocationRow) (b : StampAllocationRow) (stamps : List StampPaperRow)
    → is_live b ≡ true
    → All (Agrees rows) stamps
    → All
        (Agrees (insert b rows))
        (update_where (λ p. p.id == b.stamp_paper_id) (λ p. record p { status = allocated }) stamps)
Agrees-allocated rows b stamps live h =
    All-update_where (Agrees rows) (Agrees (insert b rows)) _ _ stamps
      (λ p k t. ground (arith, any-append (is_for p.id) rows (b ∷ [])))
      (λ p k t. ground (arith, any-append (is_for p.id) rows (b ∷ []))) h

-- A stamp that is held goes from ALLOCATED to USED.
pub Agrees-used :
    (rows : List StampAllocationRow) (s : ℕ) (stamps : List StampPaperRow)
    → holds rows s ≡ true
    → All (Agrees rows) stamps
    → All (Agrees rows) (update_where (λ p. p.id == s) (λ p. record p { status = used }) stamps)
Agrees-used rows s stamps held h =
    All-update_where (Agrees rows) (Agrees rows) _ _ stamps (λ p k t. ground arith) (λ p k t. k) h

-- ===== src/Stamps.antt =====
-- The stamp inventory (api/src/stamps/stamps.service.ts) with the unique indexes of
-- api/migrations/005_stamps.ts.
pub mod Consistent
pub mod Allocating
pub mod Freed
pub mod Releasing
mod Examples
use onlineaggrement.Base.{
  ℕ, suc, ◌+◌, Bool, true, false, not, ◌&&◌, ◌||◌, List, [], ◌∷◌, ◌++◌, Option, none, some, String,
  Text, any, select, first, update_where, insert, ◌==◌, ℕ_eq, String_eq, if◌then◌else◌,
}
use onlineaggrement.Errors.{not_found, conflict}
use onlineaggrement.Database.{
  Db, World, StampStatus, available, allocated, used, StampPaperRow, StampAllocationRow, Datum,
  null, num, str, txt, stamp_allocated, stamp_released, stamp_marked_used,
}
use onlineaggrement.Service.{
  M, ◌>>=◌, ◌>>◌, return, throw_if, or_throw, query, write, current_time, fresh_id, transaction,
}
use onlineaggrement.Audit.{audit_record}

abbrev pub is_available : StampStatus → Bool
is_available available = true
is_available _ = false

-- `released_at IS NULL`
abbrev pub is_live : StampAllocationRow → Bool
is_live a = elim a.released_at [ none ↦ true | some t ↦ false ]

-- What `uq_stamp_active_allocation` and `uq_agreement_active_allocation` keep apart, and the
-- primary key.
unfoldable pub clashes : StampAllocationRow → StampAllocationRow → Bool
clashes a b =
    a.id == b.id
    || is_live a
      && is_live b
      && (a.stamp_paper_id == b.stamp_paper_id || a.agreement_id == b.agreement_id)

unfoldable pub set_status : ℕ → StampStatus → Db → Db
set_status stamp_id status d = record d {
  stamp_papers =
      update_where (λ p. p.id == stamp_id) (λ p. record p { status = status }) d.stamp_papers;
}

abbrev pub text_data : Option Text → Datum
text_data none = null
text_data (some s) = txt s

pub record AllocateParams : Type 0 where
  pub stamp_id : ℕ
  pub agreement_id : ℕ
  pub actor_id : ℕ

unfoldable pub new_allocation : AllocateParams → ℕ → StampAllocationRow
new_allocation params id = record {
  id = id;
  stamp_paper_id = params.stamp_id;
  agreement_id = params.agreement_id;
  allocated_by = params.actor_id;
  released_at = none;
  released_reason = none;
}

-- The insertion: a violation of an index is reported as a conflict.
unfoldable pub insert_allocation : StampAllocationRow → M (Unit {0})
insert_allocation a = query (λ d. any (λ b. clashes b a) d.stamp_allocations) >>= λ taken.
    throw_if taken (conflict (some "BR-006"))
    >> write (λ d. record d { stamp_allocations = insert a d.stamp_allocations })

unfoldable pub allocate_in : AllocateParams → M ℕ
allocate_in params = do
  row ← query (λ d. first (λ p. p.id == params.stamp_id) d.stamp_papers)
  stamp ← or_throw row (not_found "Stamp paper")
  throw_if (not (is_available stamp.status)) (conflict (some "BR-006"))
  allocation_id ← fresh_id
  insert_allocation (new_allocation params allocation_id)
  write (set_status params.stamp_id allocated)
  audit_record stamp_allocated
      (("stampId", num params.stamp_id)
        ∷ ("stampNumber", text_data stamp.stamp_number)
        ∷ ("allocationId", num allocation_id)
        ∷ [])
      (record {
        agreement_id = some params.agreement_id;
        agreement_version = none;
        actor_id = some params.actor_id;
        ip_address = none;
        user_agent = none;
      })
  return allocation_id

unfoldable pub allocate : AllocateParams → M ℕ
allocate params = transaction (allocate_in params)

unfoldable pub live_allocation : ℕ → Db → Option StampAllocationRow
live_allocation agreement_id d =
    first (λ a. a.agreement_id == agreement_id && is_live a) d.stamp_allocations

unfoldable pub use_stamp : ℕ → Option ℕ → Option StampAllocationRow → M (Unit {0})
use_stamp agreement_id actor_id none = return tt
use_stamp agreement_id actor_id (some allocation) = do
  write (set_status allocation.stamp_paper_id used)
  audit_record stamp_marked_used
      (("stampId", num allocation.stamp_paper_id) ∷ ("allocationId", num allocation.id) ∷ [])
      (record {
        agreement_id = some agreement_id;
        agreement_version = none;
        actor_id = actor_id;
        ip_address = none;
        user_agent = none;
      })

-- The type of the agreement may require no stamp: then there is no allocation.
unfoldable pub mark_used : ℕ → Option ℕ → M (Unit {0})
mark_used agreement_id actor_id =
    query (live_allocation agreement_id) >>= use_stamp agreement_id actor_id

pub record ReleaseParams : Type 0 where
  pub agreement_id : ℕ
  pub reason : Text
  pub actor_id : Option ℕ

unfoldable pub set_released : ℕ → ℕ → Text → Db → Db
set_released allocation_id now reason d = record d {
  stamp_allocations =
      update_where (λ a. a.id == allocation_id)
        (λ a. record a { released_at = some now; released_reason = some reason })
        d.stamp_allocations;
}

unfoldable pub release_stamp : ReleaseParams → Option StampAllocationRow → M (Unit {0})
release_stamp params none = return tt
release_stamp params (some allocation) = do
  now ← current_time
  write (set_released allocation.id now params.reason)
  write (set_status allocation.stamp_paper_id available)
  audit_record stamp_released
      (("stampId", num allocation.stamp_paper_id) ∷ ("reason", txt params.reason) ∷ [])
      (record {
        agreement_id = some params.agreement_id;
        agreement_version = none;
        actor_id = params.actor_id;
        ip_address = none;
        user_agent = none;
      })

unfoldable pub release : ReleaseParams → M (Unit {0})
release params = query (live_allocation params.agreement_id) >>= release_stamp params

-- `if (stateCode) q.where(…)`: an empty code does not restrict.
abbrev wanted_state : Option String → String → Bool
wanted_state none state = true
wanted_state (some code) state = if code == "" then true else state == code

unfoldable pub find_available : ℕ → Option String → M (List StampPaperRow)
find_available denomination state_code = query λ d.
    select
      (λ p.
        is_available p.status
        && p.denomination == denomination
        && wanted_state state_code p.state_code)
      d.stamp_papers

-- ===== src/Stamps/Examples.antt =====
-- Concrete inventories of stamps, tests on them, and the theorems applied to them.
use onlineaggrement.Base.{
  codes, ℕ, ◌≡◌, arith, ◌==◌, ℕ_eq, map, refl, true, [], ◌∷◌, none, some, first, select,
  update_where,
}
use onlineaggrement.Errors.{conflict, not_found}
use onlineaggrement.Database.{
  World, empty_db, StampStatus, available, allocated, used, StampPaperRow, StampAllocationRow,
  scan_file,
}
use onlineaggrement.Service.{
  done, fail, ◌>>=◌, ◌>>◌, return, throw_if, or_throw, query, write, current_time, fresh_id,
  transaction, final,
}
use onlineaggrement.Audit.{audit_record}
use onlineaggrement.Stamps.{
  AllocateParams, allocate, allocate_in, clashes, insert_allocation, new_allocation, set_status,
  live_allocation, mark_used, use_stamp, ReleaseParams, release, release_stamp, set_released,
  is_available,
}
use onlineaggrement.Stamps.Consistent.{IsConsistent}
use onlineaggrement.Stamps.Allocating.{stamp_at, allocate-IsConsistent}
use onlineaggrement.Stamps.Releasing.{release-IsConsistent, mark_used-IsConsistent}
use onlineaggrement.Base.{All}

abbrev stamp : ℕ → StampStatus → StampPaperRow
stamp id status = record {
  id = id;
  stamp_number = some (codes "IN-MH1234");
  denomination = 100;
  state_code = "MH";
  file_key = record {
    agreement_number = [];
    version = 1;
    year = 2025;
    month = 4;
    name = scan_file 5;
  };
  document_hash = 5;
  status = status;
}

abbrev allocation : StampAllocationRow
allocation = record {
  id = 1;
  stamp_paper_id = 2;
  agreement_id = 7;
  allocated_by = 1;
  released_at = none;
  released_reason = none;
}

-- One stamp of two is allocated.
abbrev shelf : World
shelf = record {
  db = record empty_db {
    stamp_papers = stamp 1 available ∷ stamp 2 allocated ∷ [];
    stamp_allocations = allocation ∷ [];
  };
  objects = [];
  now = 1000;
  next_id = 5;
}

shelf-IsConsistent : IsConsistent shelf
unfolding clashes
shelf-IsConsistent = record {
  distinct = (refl, tt);
  agrees = (refl, (refl, tt));
  below = (omega arith, tt);
}

abbrev params : ℕ → ℕ → AllocateParams
params stamp_id agreement_id = record {
  stamp_id = stamp_id;
  agreement_id = agreement_id;
  actor_id = 1;
}

-- What a test of the inventory computes with.
inventory : Unit {0}
unfolding allocate allocate_in clashes insert_allocation new_allocation set_status ◌>>=◌ ◌>>◌ return
    throw_if or_throw query write fresh_id transaction audit_record first update_where set_released
    mark_used use_stamp live_allocation release release_stamp current_time
inventory = tt

abbrev after : World
unfolding inventory
after = final (allocate (params 1 8) shelf)

-- The agreement 7 holds a stamp already, and the agreement 8 is given the first one.
allocate_tests :
    (allocate (params 1 7) shelf ≡ fail (conflict (some "BR-006")) (record shelf { next_id = 6 }))
    × (allocate (params 2 8) shelf ≡ fail (conflict (some "BR-006")) shelf)
    × (allocate (params 3 8) shelf ≡ fail (not_found "Stamp paper") shelf)
    × (allocate (params 1 8) shelf ≡ done 5 after)
    × (map (λ p. p.status) after.db.stamp_papers ≡ allocated ∷ allocated ∷ [])
unfolding inventory
allocate_tests = (refl, refl, refl, refl, refl)

allocated_shelf : allocate (params 1 8) shelf ≡ done 5 after
unfolding inventory
allocated_shelf = refl

allocate-IsConsistent_example :
    IsConsistent after
    × ((s : StampPaperRow) × (stamp_at 1 shelf.db ≡ some s)
        × (is_available s.status ≡ true)
        × (stamp_at 1 after.db ≡ some (record s { status = allocated })))
allocate-IsConsistent_example =
    allocate-IsConsistent (params 1 8) shelf after 5 shelf-IsConsistent allocated_shelf

refused_shelf :
    allocate (params 1 7) shelf ≡ fail (conflict (some "BR-006")) (record shelf { next_id = 6 })
unfolding inventory
refused_shelf = refl

abbrev release_params : ReleaseParams
release_params = record { agreement_id = 7; reason = []; actor_id = none }

release-IsConsistent_example :
    (w' : World) × (release release_params shelf ≡ done tt w')
    × IsConsistent w'
    × (live_allocation 7 w'.db ≡ none)
release-IsConsistent_example = release-IsConsistent shelf shelf-IsConsistent release_params

held : live_allocation 7 shelf.db ≡ some allocation
unfolding inventory
held = refl

mark_used-IsConsistent_example :
    (w' : World) × (mark_used 7 none shelf ≡ done tt w')
    × IsConsistent w'
    × All (λ p. p.status ≡ used) (select (λ p. p.id == 2) w'.db.stamp_papers)
mark_used-IsConsistent_example =
    mark_used-IsConsistent shelf shelf-IsConsistent 7 none allocation held

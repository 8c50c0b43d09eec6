-- ===== src/Documents/Examples.antt =====
-- A concrete store, tests on it, and the theorems applied to it.
use onlineaggrement.Base.{codes, ℕ, ◌≡◌, refl, List, [], ◌∷◌, some, first}
use onlineaggrement.Errors.{other_error}
use onlineaggrement.Database.{World, FileKey, scan_file, empty_db}
use onlineaggrement.Service.{done, fail, final, ◌>>=◌, ◌>>◌, throw_if, or_throw}
use onlineaggrement.Documents.Storage.{
  object_at, same_key, same_name, get_object, exists_object, link_object, put_object,
}
use onlineaggrement.Documents.WriteOnce.{put_object-get_object, put_object-keeps}

abbrev scan : ℕ → FileKey
scan n = record {
  agreement_number = codes "A";
  version = 1;
  year = 2026;
  month = 4;
  name = scan_file n;
}

abbrev store_of : List (FileKey × List ℕ) → World
store_of objects = record { db = empty_db; objects = objects; now = 1000; next_id = 5 }

-- What a test of the store computes with.
storing : Unit {0}
unfolding ◌>>=◌ ◌>>◌ throw_if or_throw put_object exists_object link_object get_object first
    same_key same_name
storing = tt

put_object_tests :
    (put_object (scan 1) (9 ∷ []) (store_of ((scan 1, 8 ∷ []) ∷ []))
      ≡ fail (other_error "EEXIST") (store_of ((scan 1, 8 ∷ []) ∷ [])))
    × (put_object (scan 2) (9 ∷ []) (store_of ((scan 1, 8 ∷ []) ∷ []))
        ≡ done tt (store_of ((scan 1, 8 ∷ []) ∷ (scan 2, 9 ∷ []) ∷ [])))
unfolding storing
put_object_tests = (refl, refl)

written :
    put_object (scan 2) (9 ∷ []) (store_of ((scan 1, 8 ∷ []) ∷ []))
    ≡ done tt (store_of ((scan 1, 8 ∷ []) ∷ (scan 2, 9 ∷ []) ∷ []))
unfolding storing
written = refl

put_object-get_object_example :
    (get_object (scan 2) (store_of ((scan 1, 8 ∷ []) ∷ (scan 2, 9 ∷ []) ∷ []))
      ≡ done (9 ∷ []) (store_of ((scan 1, 8 ∷ []) ∷ (scan 2, 9 ∷ []) ∷ [])))
    × (empty_db ≡ empty_db)
put_object-get_object_example =
    put_object-get_object (scan 2) (9 ∷ []) (store_of ((scan 1, 8 ∷ []) ∷ []))
      (store_of ((scan 1, 8 ∷ []) ∷ (scan 2, 9 ∷ []) ∷ [])) written

first_scan : object_at (scan 1) (store_of ((scan 1, 8 ∷ []) ∷ [])).objects ≡ some (8 ∷ [])
unfolding storing
first_scan = refl

put_object-keeps_example :
    object_at
      (scan 1)
      (final (put_object (scan 1) (9 ∷ []) (store_of ((scan 1, 8 ∷ []) ∷ [])))).objects
    ≡ some (8 ∷ [])
put_object-keeps_example =
    put_object-keeps (scan 1) (9 ∷ []) (store_of ((scan 1, 8 ∷ []) ∷ [])) (scan 1) (8 ∷ [])
      first_scan

-- ===== src/Service/Inverse.antt =====
-- What a step that is done says of its world before and after.
use onlineaggrement.Base.{◌≡◌, refl, Bool, true, false, Option, none, some}
use onlineaggrement.Errors.{DomainError, Result, ok, err}
use onlineaggrement.Database.{Db, World}
use onlineaggrement.Service.{done, return, throw_if, or_throw, from_result, query, write}

module _ {w v : World} where
  pub throw_if-inverse :
      (b : Bool) (e : DomainError) {u : Unit {0}}
      → throw_if b e w ≡ done u v
      → (b ≡ false) × (w ≡ v)
  unfolding throw_if
  throw_if-inverse true e h = cc
  throw_if-inverse false e h = (refl, cc)

  pub write-inverse :
      (f : Db → Db) {u : Unit {0}} → write f w ≡ done u v → record w { db = f w.db } ≡ v
  unfolding write
  write-inverse f h = cc

module _ {A : Type 0} {w v : World} {a : A} where
  pub return-inverse : {b : A} → return b w ≡ done a v → (b ≡ a) × (w ≡ v)
  unfolding return
  return-inverse h = (cc, cc)

  pub query-inverse : (f : Db → A) → query f w ≡ done a v → (f w.db ≡ a) × (w ≡ v)
  unfolding query
  query-inverse f h = (cc, cc)

  pub or_throw-inverse :
      (o : Option A) (e : DomainError) → or_throw o e w ≡ done a v → (o ≡ some a) × (w ≡ v)
  unfolding or_throw
  or_throw-inverse none e h = cc
  or_throw-inverse (some b) e h = (cc, cc)

  pub from_result-inverse : (r : Result A) → from_result r w ≡ done a v → (r ≡ ok a) × (w ≡ v)
  unfolding from_result
  from_result-inverse (ok b) h = (cc, cc)
  from_result-inverse (err e) h = cc

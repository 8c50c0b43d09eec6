-- ===== src/Service/Keeps.antt =====
-- A relation between the database before and after a service method, and its rules of composition.
use onlineaggrement.Base.{Bool, true, false, Option, none, some}
use onlineaggrement.Errors.{DomainError, Result, ok, err}
use onlineaggrement.Database.{Db, World}
use onlineaggrement.Service.{
  Outcome, done, fail, M, final, chain, ◌>>=◌, ◌>>◌, return, throw, throw_if, branch, or_throw,
  from_result, query, write, current_time, fresh_id, roll_back, transaction, recover, catch,
}

pub record IsPreorder (R : Db → Db → Type 0) : Type 0 where
  pub same : (d : Db) → R d d
  pub follow : {d d' d'' : Db} → R d d' → R d' d'' → R d d''

pub record Keeps (R : Db → Db → Type 0) {A : Type 0} (m : M A) : Type 0 where
  pub kept : (w : World) → R w.db (final (m w)).db

module _ {R : Db → Db → Type 0} (p : IsPreorder R) where
  chain-Keeps :
      {A B : Type 0} (o : Outcome A) (f : A → M B) (d : Db)
      → ((a : A) → Keeps R (f a))
      → R d (final o).db
      → R d (final (chain o f)).db
  chain-Keeps (done a w) f d k h = p.follow h ((k a).kept w)
  chain-Keeps (fail e w) f d k h = h

  pub Keeps->>= :
      {A B : Type 0} {m : M A} {f : A → M B}
      → Keeps R m
      → ((a : A) → Keeps R (f a))
      → Keeps R (m >>= f)
  unfolding ◌>>=◌
  Keeps->>= {m} {f} h k = record { kept = λ w. chain-Keeps (m w) f w.db k (h.kept w) }

  pub Keeps->> : {A B : Type 0} {m : M A} {k : M B} → Keeps R m → Keeps R k → Keeps R (m >> k)
  unfolding ◌>>◌
  Keeps->> {m} {k} h h' = record {
    kept = λ w. chain-Keeps (m w) (λ _. k) w.db (λ _. h') (h.kept w);
  }

  pub Keeps-return : {A : Type 0} (a : A) → Keeps R (return a)
  unfolding return
  Keeps-return a = record { kept = λ w. p.same w.db }

  pub Keeps-throw : {A : Type 0} (e : DomainError) → Keeps R (throw {A = A} e)
  unfolding throw
  Keeps-throw e = record { kept = λ w. p.same w.db }

  pub Keeps-throw_if : (b : Bool) (e : DomainError) → Keeps R (throw_if b e)
  unfolding throw_if
  Keeps-throw_if b e = record { kept = go b }
    where
      go : (b : Bool) (w : World) → R w.db (final (throw_if b e w)).db
      go true w = p.same w.db
      go false w = p.same w.db

  pub Keeps-branch :
      {A : Type 0} (b : Bool) {m k : M A} → Keeps R m → Keeps R k → Keeps R (branch b m k)
  unfolding branch
  Keeps-branch b {m} {k} h h' = record { kept = go b }
    where
      go : (b : Bool) (w : World) → R w.db (final (branch b m k w)).db
      go true w = h.kept w
      go false w = h'.kept w

  pub Keeps-or_throw : {A : Type 0} (o : Option A) (e : DomainError) → Keeps R (or_throw o e)
  unfolding or_throw
  Keeps-or_throw {A} o e = record { kept = go o }
    where
      go : (o : Option A) (w : World) → R w.db (final (or_throw o e w)).db
      go none w = p.same w.db
      go (some a) w = p.same w.db

  pub Keeps-from_result : {A : Type 0} (r : Result A) → Keeps R (from_result r)
  unfolding from_result
  Keeps-from_result {A} r = record { kept = go r }
    where
      go : (r : Result A) (w : World) → R w.db (final (from_result r w)).db
      go (ok a) w = p.same w.db
      go (err e) w = p.same w.db

  pub Keeps-query : {A : Type 0} (f : Db → A) → Keeps R (query f)
  unfolding query
  Keeps-query f = record { kept = λ w. p.same w.db }

  pub Keeps-write : (f : Db → Db) → ((d : Db) → R d (f d)) → Keeps R (write f)
  unfolding write
  Keeps-write f h = record { kept = λ w. h w.db }

  pub Keeps-current_time : Keeps R current_time
  unfolding current_time
  Keeps-current_time = record { kept = λ w. p.same w.db }

  pub Keeps-fresh_id : Keeps R fresh_id
  unfolding fresh_id
  Keeps-fresh_id = record { kept = λ w. p.same w.db }

  roll_back-Keeps :
      {A : Type 0} (d : Db) (o : Outcome A) → R d (final o).db → R d (final (roll_back d o)).db
  roll_back-Keeps d (done a w) h = h
  roll_back-Keeps d (fail e w) h = p.same d

  pub Keeps-transaction : {A : Type 0} {m : M A} → Keeps R m → Keeps R (transaction m)
  unfolding transaction
  Keeps-transaction {m} h = record { kept = λ w. roll_back-Keeps w.db (m w) (h.kept w) }

  recover-Keeps :
      {A : Type 0} (o : Outcome A) (f : DomainError → M A) (d : Db)
      → ((e : DomainError) → Keeps R (f e))
      → R d (final o).db
      → R d (final (recover o f)).db
  recover-Keeps (done a w) f d k h = h
  recover-Keeps (fail e w) f d k h = p.follow h ((k e).kept w)

  pub Keeps-catch :
      {A : Type 0} {m : M A} {f : DomainError → M A}
      → Keeps R m
      → ((e : DomainError) → Keeps R (f e))
      → Keeps R (catch m f)
  unfolding catch
  Keeps-catch {m} {f} h k = record { kept = λ w. recover-Keeps (m w) f w.db k (h.kept w) }

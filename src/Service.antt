-- ===== src/Service.antt =====
-- A service method: it reads and changes the world, and returns or throws. The reads, the writes
-- and the transactions of knex (api/src/common/database), with the statements of one method in
-- the order in which the source awaits them.
pub mod Keeps
pub mod Unchanged
pub mod Inverse
use onlineaggrement.Base.{
  ◌⊎◌, inl, inr, ◌≡◌, refl, sym, ap, ◌∙◌, ℕ, suc, ◌+◌, Bool, true, false, List, Option, none, some,
  if◌then◌else◌, String,
}
use onlineaggrement.Errors.{DomainError, Result, ok, err}
use onlineaggrement.Database.{Db, World}

pub data Outcome (A : Type 0) : Type 0 where
  done : A → World → Outcome A
  fail : DomainError → World → Outcome A

abbrev pub M : Type 0 → Type 0
M A = World → Outcome A

abbrev pub final : {A : Type 0} → Outcome A → World
final (done a w) = w
final (fail e w) = w

abbrev pub chain : {A B : Type 0} → Outcome A → (A → M B) → Outcome B
chain (done a w) f = f a w
chain (fail e w) f = fail e w

infixl 5 ◌>>=◌ ◌>>◌
unfoldable pub ◌>>=◌ : {A B : Type 0} → M A → (A → M B) → M B
◌>>=◌ m f w = chain (m w) f

unfoldable pub ◌>>◌ : {A B : Type 0} → M A → M B → M B
◌>>◌ m k w = chain (m w) (λ _. k)

-- A step that is done hands its value and the world on; one that fails ends the method.
module _ {A B : Type 0} (m : M A) {w w' : World} where
  pub >>=-done : (f : A → M B) {a : A} → m w ≡ done a w' → (m >>= f) w ≡ f a w'
  unfolding ◌>>=◌
  >>=-done f h = ap (λ o. chain o f) h

  pub >>=-fail : (f : A → M B) {e : DomainError} → m w ≡ fail e w' → (m >>= f) w ≡ fail e w'
  unfolding ◌>>=◌
  >>=-fail f h = ap (λ o. chain o f) h

  pub >>-done : (k : M B) {a : A} → m w ≡ done a w' → (m >> k) w ≡ k w'
  unfolding ◌>>◌
  >>-done k h = ap (λ o. chain o (λ _. k)) h

  pub >>-fail : (k : M B) {e : DomainError} → m w ≡ fail e w' → (m >> k) w ≡ fail e w'
  unfolding ◌>>◌
  >>-fail k h = ap (λ o. chain o (λ _. k)) h

unfoldable pub return : {A : Type 0} → A → M A
return a w = done a w

unfoldable pub throw : {A : Type 0} → DomainError → M A
throw e w = fail e w

-- `if (b) throw e`
unfoldable pub throw_if : Bool → DomainError → M (Unit {0})
throw_if b e w = if b then fail e w else done tt w

unfoldable pub branch : {A : Type 0} → Bool → M A → M A → M A
branch b m k w = elim b [ true ↦ m w | false ↦ k w ]

-- `if (!row) throw e; return row`
unfoldable pub or_throw : {A : Type 0} → Option A → DomainError → M A
or_throw none e w = fail e w
or_throw (some a) e w = done a w

unfoldable pub from_result : {A : Type 0} → Result A → M A
from_result (ok a) w = done a w
from_result (err e) w = fail e w

-- A read of the database, and a write to it.
unfoldable pub query : {A : Type 0} → (Db → A) → M A
query f w = done (f w.db) w

unfoldable pub write : (Db → Db) → M (Unit {0})
write f w = done tt (record w { db = f w.db })

unfoldable pub current_time : M ℕ
current_time w = done w.now w

-- `gen_random_uuid()`: an identifier that was not handed out before.
unfoldable pub fresh_id : M ℕ
fresh_id w = done w.next_id (record w { next_id = suc w.next_id })

abbrev pub roll_back : {A : Type 0} → Db → Outcome A → Outcome A
roll_back d (done a w) = done a w
roll_back d (fail e w) = fail e (record w { db = d })

-- `knex.transaction(m)`: what throws leaves the database as it was.
unfoldable pub transaction : {A : Type 0} → M A → M A
transaction m w = roll_back w.db (m w)

abbrev pub recover : {A : Type 0} → Outcome A → (DomainError → M A) → Outcome A
recover (done a w) h = done a w
recover (fail e w) h = h e w

-- `try { m } catch (e) { h(e) }`
unfoldable pub catch : {A : Type 0} → M A → (DomainError → M A) → M A
catch m h w = recover (m w) h

module _ {A : Type 0} {w : World} where
  pub or_throw-some :
      {o : Option A} {a : A} (e : DomainError) → o ≡ some a → or_throw o e w ≡ done a w
  unfolding or_throw
  or_throw-some e h = ap (λ o. or_throw o e w) h

  pub or_throw-none : {o : Option A} (e : DomainError) → o ≡ none → or_throw o e w ≡ fail e w
  unfolding or_throw
  or_throw-none e h = ap (λ o. or_throw o e w) h

  pub from_result-ok : {r : Result A} {a : A} → r ≡ ok a → from_result r w ≡ done a w
  unfolding from_result
  from_result-ok h = ap (λ r. from_result r w) h

  pub from_result-err : {r : Result A} {e : DomainError} → r ≡ err e → from_result r w ≡ fail e w
  unfolding from_result
  from_result-err h = ap (λ r. from_result r w) h

  pub query-done : (f : Db → A) → query f w ≡ done (f w.db) w
  unfolding query
  query-done f = refl

pub write-done : {w : World} (f : Db → Db) → write f w ≡ done tt (record w { db = f w.db })
unfolding write
write-done f = refl

pub current_time-done : {w : World} → current_time w ≡ done w.now w
unfolding current_time
current_time-done = refl

-- A transaction that is done is what it holds; one that fails leaves the database as it was.
module _ {A : Type 0} (m : M A) {w w' : World} where
  pub transaction-done : {a : A} → m w ≡ done a w' → transaction m w ≡ done a w'
  unfolding transaction
  transaction-done h = ap (roll_back w.db) h

  pub transaction-fail :
      {e : DomainError} → m w ≡ fail e w' → transaction m w ≡ fail e (record w' { db = w.db })
  unfolding transaction
  transaction-fail h = ap (roll_back w.db) h

module _ {A : Type 0} {w v : World} where
  pub done-injective : {a b : A} → done a w ≡ done b v → (a ≡ b) × (w ≡ v)
  done-injective h = (cc, cc)

  pub fail-injective :
      {d e : DomainError} → ◌≡◌ {A = Outcome A} (fail d w) (fail e v) → (d ≡ e) × (w ≡ v)
  fail-injective h = (cc, cc)

  pub done-ne-fail : {a : A} {e : DomainError} → done a w ≡ fail e v → ⊥
  done-ne-fail h = cc

-- Either outcome, with its equation.
pub Outcome-cases :
    {A : Type 0} (o : Outcome A)
    → ((a : A) × (v : World) × (o ≡ done a v)) ⊎ ((e : DomainError) × (v : World) × (o ≡ fail e v))
Outcome-cases (done a v) = inl (a, v, refl)
Outcome-cases (fail e v) = inr (e, v, refl)

module _ {A : Type 0} (m : M A) {w w' : World} where
  pub catch-done : (h : DomainError → M A) {a : A} → m w ≡ done a w' → catch m h w ≡ done a w'
  unfolding catch
  catch-done h e = ap (λ o. recover o h) e

  pub catch-fail :
      (h : DomainError → M A) {x : DomainError} → m w ≡ fail x w' → catch m h w ≡ h x w'
  unfolding catch
  catch-fail h e = ap (λ o. recover o h) e

module _ {b : Bool} (e : DomainError) {w : World} where
  pub throw_if-true : b ≡ true → throw_if b e w ≡ fail e w
  unfolding throw_if
  throw_if-true h = rw h

  pub throw_if-false : b ≡ false → throw_if b e w ≡ done tt w
  unfolding throw_if
  throw_if-false h = rw h

module _ {A : Type 0} {b : Bool} (m k : M A) {w : World} where
  pub branch-true : b ≡ true → branch b m k w ≡ m w
  unfolding branch
  branch-true h = rw h

  pub branch-false : b ≡ false → branch b m k w ≡ k w
  unfolding branch
  branch-false h = rw h

-- A method that is done was done at its first step, and at the rest from there.
module _ {A B : Type 0} (m : M A) {w v : World} {b : B} where
  pub >>=-inverse :
      (f : A → M B)
      → (m >>= f) w ≡ done b v
      → (a : A) × (u : World) × (m w ≡ done a u) × (f a u ≡ done b v)
  >>=-inverse f h = elim (Outcome-cases (m w)) [
    | inl (a, u, e) ↦ (a, u, e, sym (>>=-done m f e) ∙ h)
    | inr (x, u, e) ↦ absurd (done-ne-fail (sym h ∙ >>=-fail m f e))
  ]

  pub >>-inverse :
      (k : M B)
      → (m >> k) w ≡ done b v
      → (a : A) × (u : World) × (m w ≡ done a u) × (k u ≡ done b v)
  >>-inverse k h = elim (Outcome-cases (m w)) [
    | inl (a, u, e) ↦ (a, u, e, sym (>>-done m k e) ∙ h)
    | inr (x, u, e) ↦ absurd (done-ne-fail (sym h ∙ >>-fail m k e))
  ]

module _ {A : Type 0} (m : M A) {w v : World} {a : A} where
  pub transaction-inverse : transaction m w ≡ done a v → m w ≡ done a v
  transaction-inverse h = elim (Outcome-cases (m w)) [
    | inl (b, u, e) ↦ e ∙ sym (transaction-done m e) ∙ h
    | inr (x, u, e) ↦ absurd (done-ne-fail (sym h ∙ transaction-fail m e))
  ]

pub transaction-restores :
    {A : Type 0} (m : M A) (w v : World) {x : DomainError}
    → transaction m w ≡ fail x v
    → v.db ≡ w.db
transaction-restores m w v {x} h = elim (Outcome-cases (m w)) [
  | inl (b, u, e) ↦ absurd (done-ne-fail (sym (transaction-done m e) ∙ h))
  | inr (y, u, e) ↦
      let (_, same) = fail-injective (sym (transaction-fail m e) ∙ h) in ap (λ z. z.db) (sym same)
]

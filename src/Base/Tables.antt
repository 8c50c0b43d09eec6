-- ===== src/Base/Tables.antt =====
-- A database table as the list of its rows, in order of insertion.
use mathlib.Core.Bool.{Bool, true, false}
use Prim.Native.Nat.{suc}
use mathlib.Core.Path.{◌≡◌, refl, ap}
use mathlib.Core.Logic.{inl, inr}
use native.Mathlib.Omega.{arith}
use onlineaggrement.Base.Lists.{any, select, length}
use mathlib.Core.Option.{Option, none, some}
use mathlib.Core.List.{List, [], ◌∷◌, ◌++◌}
use onlineaggrement.Base.Tests.{if◌then◌else◌, Bool-cases}

module _ {A : Type 0} where
  -- `.where(p).first()`.
  unfoldable pub first : (A → Bool) → List A → Option A
  first p [] = none
  first p (x ∷ xs) = if p x then some x else first p xs

  -- `.where(p).update(f)`.
  unfoldable pub update_where : (A → Bool) → (A → A) → List A → List A
  update_where p f [] = []
  update_where p f (x ∷ xs) = (if p x then f x else x) ∷ update_where p f xs

  -- `.insert(x)`.
  abbrev pub insert : A → List A → List A
  insert x xs = xs ++ x ∷ []

module _ {A : Type 0} where
  pub first-holds : (p : A → Bool) (xs : List A) (a : A) → first p xs ≡ some a → p a ≡ true
  unfolding first
  first-holds p [] a h = cc
  first-holds p (x ∷ xs) a h = ground (arith, first-holds p xs a)

  pub first-insert :
      (p : A → Bool) (xs : List A) (y a : A) → first p xs ≡ some a → first p (insert y xs) ≡ some a
  unfolding first
  first-insert p [] y a h = cc
  first-insert p (x ∷ xs) y a h = ground (arith, first-insert p xs y a)

  -- The rows that an update reaches begin with the row that was read, if the update's condition
  -- holds of it and implies that of the read.
  pub select-first :
      (p q : A → Bool) (xs : List A) (a : A)
      → ((x : A) → q x ≡ true → p x ≡ true)
      → q a ≡ true
      → first p xs ≡ some a
      → (rest : List A) × (select q xs ≡ a ∷ rest)
  unfolding first select
  select-first p q [] a k t h = cc
  select-first p q (x ∷ xs) a k t h = elim (Bool-cases (p x)) [
    | inl hit ↦ (select q xs, ground (arith, t))
    | inr miss ↦
        let (rest, e) = select-first p q xs a k t (rw (miss, first) at h) in
        (rest, ground (arith, k x))
  ]

  pub first-update_where :
      (p q : A → Bool) (f : A → A) (xs : List A) (a : A)
      → ((x : A) → q x ≡ true → p x ≡ true)
      → ((x : A) → p (f x) ≡ p x)
      → q a ≡ true
      → first p xs ≡ some a
      → first p (update_where q f xs) ≡ some (f a)
  unfolding first update_where
  first-update_where p q f [] a k s t h = cc
  first-update_where p q f (x ∷ xs) a k s t h =
      ground (arith, k x, s x, first-update_where p q f xs a k s t)

  pub first-update_where_miss :
      (p q : A → Bool) (f : A → A) (xs : List A)
      → ((x : A) → q x ≡ true → p x ≡ false)
      → ((x : A) → p (f x) ≡ p x)
      → first p (update_where q f xs) ≡ first p xs
  unfolding first update_where
  first-update_where_miss p q f [] k s = refl
  first-update_where_miss p q f (x ∷ xs) k s =
      ground (arith, k x, s x, first-update_where_miss p q f xs k s)

module _ {A : Type 0} (p : A → Bool) where
  pub select-insert_hit :
      (xs : List A) (y : A) → p y ≡ true → select p (insert y xs) ≡ insert y (select p xs)
  unfolding select
  select-insert_hit [] y h = ground arith
  select-insert_hit (x ∷ xs) y h = ground (arith, select-insert_hit xs y)

  pub select-insert_miss :
      (xs : List A) (y : A) → p y ≡ false → select p (insert y xs) ≡ select p xs
  unfolding select
  select-insert_miss [] y h = ground arith
  select-insert_miss (x ∷ xs) y h = ground (arith, select-insert_miss xs y)

  pub first-any : (xs : List A) (a : A) → first p xs ≡ some a → any p xs ≡ true
  unfolding first
  first-any [] a h = cc
  first-any (x ∷ xs) a h = ground (arith, first-any xs a)

  pub first-none-any : (xs : List A) → first p xs ≡ none → any p xs ≡ false
  unfolding first
  first-none-any [] h = refl
  first-none-any (x ∷ xs) h = ground (arith, first-none-any xs)

  pub first-insert_hit :
      (xs : List A) (y : A) → first p xs ≡ none → p y ≡ true → first p (insert y xs) ≡ some y
  unfolding first
  first-insert_hit [] y h k = ground arith
  first-insert_hit (x ∷ xs) y h k = ground (arith, first-insert_hit xs y)

  pub first-insert_miss : (xs : List A) (y : A) → p y ≡ false → first p (insert y xs) ≡ first p xs
  unfolding first
  first-insert_miss [] y h = ground arith
  first-insert_miss (x ∷ xs) y h = ground (arith, first-insert_miss xs y)

pub length-insert : {A : Type 0} (xs : List A) (y : A) → length (insert y xs) ≡ suc (length xs)
length-insert [] y = refl
length-insert (x ∷ xs) y = ap suc (length-insert xs y)

-- ===== src/Service/Unchanged.antt =====
-- A part of the database, and the methods that do not change it.
use onlineaggrement.Base.{◌≡◌, refl, sym, ap, ◌∙◌}
use onlineaggrement.Database.{Db, World}
use onlineaggrement.Service.{M, done, final}
use onlineaggrement.Service.Keeps.{IsPreorder, Keeps}

module _ {X : Type 0} (part : Db → X) where
  abbrev pub Unchanged : Db → Db → Type 0
  Unchanged d d' = part d' ≡ part d

  pub Unchanged-IsPreorder : IsPreorder Unchanged
  Unchanged-IsPreorder = record { same = λ d. refl; follow = λ h k. k ∙ h }

  pub Keeps-done :
      {A : Type 0} (m : M A) {w v : World} {a : A}
      → Keeps Unchanged m
      → m w ≡ done a v
      → part v.db ≡ part w.db
  Keeps-done m {w} k h = ap (λ o. part (final o).db) (sym h) ∙ k.kept w

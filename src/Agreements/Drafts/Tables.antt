-- ===== src/Agreements/Drafts/Tables.antt =====
-- The rows that a creation adds (create of api/src/agreements/agreements.service.ts).
use onlineaggrement.Base.{
  ℕ, ◌≡◌, refl, sym, ap, ◌∙◌, Bool, false, List, [], ◌∷◌, ◌++◌, Text, any, insert, ◌==◌, ℕ_eq,
  Text_eq,
}
use onlineaggrement.Errors.{other_error}
use onlineaggrement.Database.{Db, World, AgreementRow, PartyRow}
use onlineaggrement.Service.{
  M, done, done-injective, return, ◌>>=◌, ◌>>◌, >>=-inverse, >>-inverse, query, write, throw_if,
  fresh_id,
}
use onlineaggrement.Service.Inverse.{throw_if-inverse, query-inverse, write-inverse}
use onlineaggrement.Service.Keeps.{
  Keeps, Keeps->>=, Keeps->>, Keeps-query, Keeps-return, Keeps-write,
}
use onlineaggrement.Service.Unchanged.{Unchanged, Unchanged-IsPreorder}
use onlineaggrement.Agreements.Numbers.{
  next_agreement_number, ensure_number_sequence, agreement_number, next_number,
}
use onlineaggrement.Agreements.Parties.{PartyInput, party_row, insert_parties}
use onlineaggrement.Agreements.Drafts.{insert_agreement}

-- The tables of the agreements and of their parties.
abbrev pub stored : Db → List AgreementRow × List PartyRow
stored d = (d.agreements, d.agreement_parties)

pub next_agreement_number-Keeps :
    (fy type_code : Text) → Keeps (Unchanged stored) (next_agreement_number fy type_code)
unfolding next_agreement_number ensure_number_sequence
next_agreement_number-Keeps fy type_code =
    let p = Unchanged-IsPreorder stored in
    Keeps->> p (Keeps-write p _ (λ d. refl)) (
      Keeps->>= p (Keeps-query p _) λ row.
        Keeps->> p (Keeps-write p _ (λ d. refl))
          (Keeps-return p (agreement_number fy type_code (next_number row))))

pub insert_agreement-inverse :
    (a : AgreementRow) (w v : World) (u : Unit {0})
    → insert_agreement a w ≡ done u v
    → (any (λ b. b.agreement_number == a.agreement_number) w.db.agreements ≡ false)
      × (stored v.db ≡ (insert a w.db.agreements, w.db.agreement_parties))
unfolding insert_agreement
insert_agreement-inverse a w v u h =
    let (taken, w1, e1, k1) = >>=-inverse (query _) _ h in
    let (t, w2, e2, k2) = >>-inverse (throw_if taken (other_error "unique_violation")) _ k1 in
    let (at, p1) = query-inverse _ e1 in
    let (free, p2) = throw_if-inverse taken _ e2 in
    (
      at ∙ free,
      sym (ap (λ x. stored x.db) (write-inverse _ k2))
          ∙ ap (λ x. (insert a x.db.agreements, x.db.agreement_parties)) (sym (p1 ∙ p2)),
    )

-- The rows are those of the parties that were asked for, in their order.
abbrev pub AreRowsOf : ℕ → List PartyInput → List PartyRow → Type 0
AreRowsOf agreement_id [] [] = Unit
AreRowsOf agreement_id [] (r ∷ rows) = ⊥
AreRowsOf agreement_id (p ∷ parties) [] = ⊥
AreRowsOf agreement_id (p ∷ parties) (r ∷ rows) =
    (r ≡ party_row r.id agreement_id p) × AreRowsOf agreement_id parties rows

insert_party-inverse :
    (r : PartyRow) (taken_by : Db → Bool) (k : M (Unit {0})) (w v : World) (u : Unit {0})
    → (query taken_by >>= λ taken.
          throw_if taken (other_error "unique_violation")
          >> (write (λ d. record d { agreement_parties = insert r d.agreement_parties }) >> k))
        w
      ≡ done u v
    → (x : World) × (k x ≡ done u v)
      × (stored x.db ≡ (w.db.agreements, insert r w.db.agreement_parties))
insert_party-inverse r taken_by k w v u h =
    let (taken, w1, e1, k1) = >>=-inverse (query taken_by) _ h in
    let (t, w2, e2, k2) = >>-inverse (throw_if taken (other_error "unique_violation")) _ k1 in
    let (t', w3, e3, k3) = >>-inverse (write _) k k2 in
    (
      w3,
      k3,
      sym (ap (λ x. stored x.db) (write-inverse _ e3))
          ∙ ap (λ x. (x.db.agreements, insert r x.db.agreement_parties))
              (sym ((query-inverse _ e1).1 ∙ (throw_if-inverse taken _ e2).1)),
    )

append-nil : {A : Type 0} (xs : List A) → xs ++ [] ≡ xs
append-nil [] = refl
append-nil (x ∷ xs) = ap (λ l. x ∷ l) (append-nil xs)

append-insert :
    {A : Type 0} (xs : List A) (y : A) (ys : List A) → insert y xs ++ ys ≡ xs ++ (y ∷ ys)
append-insert [] y ys = refl
append-insert (x ∷ xs) y ys = ap (λ l. x ∷ l) (append-insert xs y ys)

pub insert_parties-inverse :
    (agreement_id : ℕ) (parties : List PartyInput) (w v : World) (u : Unit {0})
    → insert_parties agreement_id parties w ≡ done u v
    → (rows : List PartyRow) × AreRowsOf agreement_id parties rows
      × (stored v.db ≡ (w.db.agreements, w.db.agreement_parties ++ rows))
unfolding insert_parties fresh_id return party_row
insert_parties-inverse agreement_id [] w v u h = (
  [],
  tt,
  sym (ap (λ x. stored x.db) (done-injective h).1)
      ∙ ap (λ l. (w.db.agreements, l)) (sym (append-nil w.db.agreement_parties)),
)
insert_parties-inverse agreement_id (p ∷ parties) w v u h =
    let (id, w0, e0, k0) = >>=-inverse fresh_id _ h in
    let (x, kx, sx) =
      insert_party-inverse (party_row id agreement_id p) _ (insert_parties agreement_id parties) w0
        v u k0 in
    let (rows, are, sv) = insert_parties-inverse agreement_id parties x v u kx in
    let r = party_row id agreement_id p in
    (
      r ∷ rows,
      (refl, are),
      sv
          ∙ ap (λ q. (q.0, q.1 ++ rows)) sx
          ∙ ap (λ q. (q.0, insert r q.1 ++ rows))
              (sym (ap (λ x. stored x.db) (done-injective e0).1))
          ∙ ap (λ l. (w.db.agreements, l)) (append-insert w.db.agreement_parties r rows),
    )

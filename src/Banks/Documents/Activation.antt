-- ===== src/Banks/Documents/Activation.antt =====
-- An upload is the bank's one active document (uploadDocument of api/src/banks/banks.service.ts).
use onlineaggrement.Base.{
  ℕ, suc, ◌≡◌, refl, sym, ap, ◌∙◌, Bool, true, false, String, List, [], ◌∷◌, some, first, select,
  insert, update_where, subst, select-insert_hit, select-insert_miss, nat_eq, nat_eq_iff, ◌==◌,
  ℕ_eq, first-holds, arith,
}
use onlineaggrement.Errors.{other_error}
use onlineaggrement.Database.{Db, World, BankRow, BankDocumentRow, FileKey, AuditEvent, Datum}
use onlineaggrement.Service.{
  done, done-injective, return, ◌>>=◌, ◌>>◌, >>=-inverse, >>-inverse, query, write, throw_if,
  fresh_id, from_result, transaction-inverse,
}
use onlineaggrement.Service.Inverse.{
  throw_if-inverse, return-inverse, write-inverse, query-inverse, or_throw-inverse,
  from_result-inverse,
}
use onlineaggrement.Audit.{AuditContext, audit_record}
use onlineaggrement.Documents.{Platform}
use onlineaggrement.Documents.Storage.{put_object, exists_object, link_object}
use onlineaggrement.Documents.Composing.{Authoring}
use onlineaggrement.Banks.{get_bank}
use onlineaggrement.Banks.Documents.{
  BankFile, latest_version, is_active_of, insert_bank_document, deactivate, new_document, store_row,
  store_document, upload_in, upload_document, active_document, active_or_throw,
}

abbrev rows : Db → List BankDocumentRow
rows d = d.bank_agreement_documents

abbrev off : BankDocumentRow → BankDocumentRow
off r = record r { is_active = false }

abbrev is_of : ℕ → BankDocumentRow → Bool
is_of bank_id r = r.bank_id == bank_id

put_object-db :
    (key : FileKey) (bytes : List ℕ) (w v : World) {u : Unit {0}}
    → put_object key bytes w ≡ done u v
    → w.db ≡ v.db
unfolding put_object exists_object link_object
put_object-db key bytes w v h =
    let (taken, w1, e1, k1) = >>=-inverse (exists_object key) _ h in
    let (t, w2, e2, k2) = >>-inverse (throw_if taken (other_error "EEXIST")) _ k1 in
    ap (λ x. x.db) ((done-injective e1).1 ∙ (throw_if-inverse taken _ e2).1)
    ∙ ap (λ x. x.db) (done-injective k2).1

insert_bank_document-inverse :
    (r : BankDocumentRow) (w v : World) {u : Unit {0}}
    → insert_bank_document r w ≡ done u v
    → rows v.db ≡ insert r (rows w.db)
unfolding insert_bank_document
insert_bank_document-inverse r w v h =
    let (taken, w1, e1, k1) = >>=-inverse (query _) _ h in
    let (t, w2, e2, k2) = >>-inverse (throw_if taken (other_error "unique_violation")) _ k1 in
    sym (ap (λ x. rows x.db) (write-inverse _ k2))
    ∙ ap (λ x. insert r (rows x.db))
        (sym ((query-inverse _ e1).1 ∙ (throw_if-inverse taken _ e2).1))

-- What an upload makes of the documents of the bank.
record IsUploaded (bank_id next : ℕ) (d d' : Db) (r : BankDocumentRow) : Type 0 where
  inserted : rows d' ≡ insert r (update_where (is_active_of bank_id) off (rows d))
  of_bank : r.bank_id ≡ bank_id
  version : r.version_no ≡ next
  active : r.is_active ≡ true

select-none_active :
    (bank_id : ℕ) (l : List BankDocumentRow)
    → select (is_active_of bank_id) (update_where (is_active_of bank_id) off l) ≡ []
unfolding select update_where
select-none_active bank_id [] = refl
select-none_active bank_id (r ∷ l) = ground (arith, select-none_active bank_id l)

select-of_other :
    (i bank_id : ℕ) (l : List BankDocumentRow)
    → nat_eq bank_id i ≡ false
    → select (is_of i) (update_where (is_active_of bank_id) off l) ≡ select (is_of i) l
unfolding select update_where
select-of_other i bank_id [] h = refl
select-of_other i bank_id (r ∷ l) h = ground (arith, select-of_other i bank_id l h)

first-select :
    {A : Type 0} (p : A → Bool) (l : List A) (a : A) (rest : List A)
    → select p l ≡ a ∷ rest
    → first p l ≡ some a
unfolding select first
first-select p [] a rest h = cc
first-select p (x ∷ l) a rest h = ground (arith, first-select p l a rest)

audit_record-rows :
    (event : AuditEvent) (data_of : List (String × Datum)) (ctx : AuditContext) (w v : World)
    {u : Unit {0}}
    → audit_record event data_of ctx w ≡ done u v
    → rows v.db ≡ rows w.db
unfolding audit_record
audit_record-rows event data_of ctx w v h = sym (ap (λ x. rows x.db) (write-inverse _ h))

store_row-inverse :
    (bank : BankRow) (row : BankDocumentRow) (actor_id : ℕ) (w v : World) (r : BankDocumentRow)
    → store_row bank row actor_id w ≡ done r v
    → (row ≡ r) × (rows v.db ≡ insert row (rows w.db))
unfolding store_row
store_row-inverse bank row actor_id w v r h =
    let (t, w1, e1, k1) = >>-inverse (insert_bank_document row) _ h in
    let (u, w2, e2, k2) = >>-inverse (audit_record _ _ _) _ k1 in
    let (same, there) = return-inverse k2 in
    (
      same,
      sym (ap (λ x. rows x.db) there)
          ∙ audit_record-rows _ _ _ w1 w2 e2
          ∙ insert_bank_document-inverse row w w1 e1,
    )

module _ (platform : Platform) (authoring : Authoring) where
  store_document-inverse :
      (bank : BankRow) (file : BankFile) (converted : List ℕ) (pages next actor_id : ℕ)
      (w v : World) (r : BankDocumentRow)
      → store_document platform authoring bank file converted pages next actor_id w ≡ done r v
      → IsUploaded bank.id next w.db v.db r
  unfolding store_document deactivate fresh_id ◌>>=◌ ◌>>◌ write new_document
  store_document-inverse bank file converted pages next actor_id w v r h =
      let new = new_document platform authoring file converted pages w.next_id bank.id next in
      let w1 : World = record w {
        db = record w.db {
          bank_agreement_documents =
              update_where (is_active_of bank.id) off w.db.bank_agreement_documents;
        };
        next_id = suc w.next_id;
      } in
      let (same, e) = store_row-inverse bank new actor_id w1 v r h in
      record {
        inserted = e ∙ ap (λ x. insert x (rows w1.db)) same;
        of_bank = sym (ap (λ x. x.bank_id) same);
        version = sym (ap (λ x. x.version_no) same);
        active = sym (ap (λ x. x.is_active) same);
      }

  upload_in-inverse :
      (bank : BankRow) (file : BankFile) (converted : List ℕ) (pages actor_id : ℕ) (w v : World)
      (r : BankDocumentRow)
      → upload_in platform authoring bank file converted pages actor_id w ≡ done r v
      → IsUploaded bank.id (suc (latest_version bank.id (rows w.db))) w.db v.db r
  unfolding upload_in
  upload_in-inverse bank file converted pages actor_id w v r h =
      let (latest, w1, e1, k1) = >>=-inverse (query _) _ h in
      let (t, w2, e2, k2) = >>-inverse (put_object _ _) _ k1 in
      let (u, w3, e3, k3) = >>-inverse (put_object _ _) _ k2 in
      let (at, same) = query-inverse _ e1 in
      let there : w.db ≡ w3.db =
        ap (λ x. x.db) same ∙ put_object-db _ _ w1 w2 e2 ∙ put_object-db _ _ w2 w3 e3 in
      let stored =
        store_document-inverse bank file converted pages (suc latest) actor_id w3 v r k3 in
      record {
        inserted =
            stored.inserted
            ∙ ap (λ d. insert r (update_where (is_active_of bank.id) off (rows d))) (sym there);
        of_bank = stored.of_bank;
        version = stored.version ∙ ap suc (sym at);
        active = stored.active;
      }

  uploaded-active :
      (bank_id next : ℕ) (d d' : Db) (r : BankDocumentRow)
      → IsUploaded bank_id next d d' r
      → select (is_active_of bank_id) (rows d') ≡ r ∷ []
  uploaded-active bank_id next d d' r u =
      ap (select (is_active_of bank_id)) u.inserted
      ∙ select-insert_hit (is_active_of bank_id) (update_where (is_active_of bank_id) off (rows d))
          r (ground (arith, u.of_bank, u.active))
      ∙ ap (λ l. insert r l) (select-none_active bank_id (rows d))

  uploaded-others :
      (bank_id next : ℕ) (d d' : Db) (r : BankDocumentRow)
      → IsUploaded bank_id next d d' r
      → (i : ℕ) → nat_eq bank_id i ≡ false
      → select (is_of i) (rows d') ≡ select (is_of i) (rows d)
  uploaded-others bank_id next d d' r u i h =
      ap (select (is_of i)) u.inserted
      ∙ select-insert_miss (is_of i) (update_where (is_active_of bank_id) off (rows d)) r
          (ground (arith, u.of_bank, h))
      ∙ select-of_other i bank_id (rows d) h

  upload_document-inverse :
      (bank_id : ℕ) (file : BankFile) (actor_id : ℕ) (w v : World) (r : BankDocumentRow)
      → upload_document platform authoring bank_id file actor_id w ≡ done r v
      → IsUploaded bank_id (suc (latest_version bank_id (rows w.db))) w.db v.db r
  unfolding upload_document get_bank
  upload_document-inverse bank_id file actor_id w v r h =
      let (bank, w1, e1, k1) = >>=-inverse (get_bank bank_id) _ h in
      let (row, w0, e0, k0) = >>=-inverse (query _) _ e1 in
      let (t, w2, e2, k2) = >>-inverse (throw_if _ _) _ k1 in
      let (u, w3, e3, k3) = >>-inverse (throw_if _ _) _ k2 in
      let (converted, w4, e4, k4) = >>=-inverse (from_result _) _ k3 in
      let (pages, w5, e5, k5) = >>=-inverse (from_result _) _ k4 in
      let stored = upload_in-inverse bank file converted pages actor_id w5 v r (
        transaction-inverse (upload_in platform authoring bank file converted pages actor_id) k5) in
      let there : w ≡ w5 =
        (query-inverse _ e0).1
        ∙ (or_throw-inverse row _ k0).1
        ∙ (throw_if-inverse _ _ e2).1
        ∙ (throw_if-inverse _ _ e3).1
        ∙ (from_result-inverse _ e4).1
        ∙ (from_result-inverse _ e5).1 in
      let same : bank.id ≡ bank_id = (nat_eq_iff bank.id bank_id).0 (
        first-holds (λ b. b.id == bank_id) w.db.banks bank
          ((query-inverse _ e0).0 ∙ (or_throw-inverse row _ k0).0)) in
      subst (λ x. IsUploaded bank_id (suc (latest_version bank_id (rows x.db))) x.db v.db r)
        (sym there)
        (subst (λ x. IsUploaded x (suc (latest_version x (rows w5.db))) w5.db v.db r) same stored)

  -- An upload that returns leaves the uploaded document as the bank's one active document, which is
  -- then the one read as active, with the version after the latest, and the documents of every other bank as they were.
  pub upload_document-activates :
      (bank_id : ℕ) (file : BankFile) (actor_id : ℕ) (w v : World) (r : BankDocumentRow)
      → upload_document platform authoring bank_id file actor_id w ≡ done r v
      → (select (is_active_of bank_id) v.db.bank_agreement_documents ≡ r ∷ [])
        × (active_document bank_id v ≡ done r v)
        × (r.version_no ≡ suc (latest_version bank_id w.db.bank_agreement_documents))
        × ((i : ℕ)
            → nat_eq bank_id i ≡ false
            → select (λ d. d.bank_id == i) v.db.bank_agreement_documents
              ≡ select (λ d. d.bank_id == i) w.db.bank_agreement_documents)
  unfolding active_document active_or_throw return ◌>>=◌ query
  upload_document-activates bank_id file actor_id w v r h =
      let u = upload_document-inverse bank_id file actor_id w v r h in
      let one = uploaded-active bank_id _ w.db v.db r u in
      (
        one,
        ap (λ o. active_or_throw bank_id o v)
            (first-select (is_active_of bank_id) (rows v.db) r [] one),
        u.version,
        uploaded-others bank_id _ w.db v.db r u,
      )

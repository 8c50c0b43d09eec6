-- ===== src/Agreements/Drafts/Creation.antt =====
-- What a creation stores (create of api/src/agreements/agreements.service.ts).
use onlineaggrement.Base.{
  ◌≡◌, subst, sym, ap, ◌∙◌, false, List, ◌++◌, any, insert, ◌==◌, ℕ_eq, Text_eq,
}
use onlineaggrement.Database.{Db, World, AgreementRow, PartyRow}
use onlineaggrement.Service.{
  done, done-injective, >>=-inverse, >>-inverse, write, current_time, fresh_id, transaction-inverse,
}
use onlineaggrement.Service.Inverse.{return-inverse, write-inverse}
use onlineaggrement.Service.Unchanged.{Keeps-done}
use onlineaggrement.Audit.{audit_record}
use onlineaggrement.Workflow.States.{AgreementState}
use onlineaggrement.Documents.{Platform}
use onlineaggrement.Signing.Parties.{Principal}
use onlineaggrement.Agreements.Numbers.{next_agreement_number}
use onlineaggrement.Agreements.Parties.{all_parties, insert_parties}
use onlineaggrement.Agreements.Drafts.{
  CreateAgreementInput, ClientContext, Settled, draft_row, id_of_bank, insert_agreement,
  settle_agreement, store_agreement, create_in, create_agreement,
}
use onlineaggrement.Agreements.Drafts.Settling.{IsSettled, settle_agreement-inverse}
use onlineaggrement.Agreements.Drafts.Tables.{
  stored, AreRowsOf, next_agreement_number-Keeps, insert_agreement-inverse, insert_parties-inverse,
}

-- What a creation that returned the agreement `a` did.
pub record IsCreated (input : CreateAgreementInput) (w v : World) (a : AgreementRow) : Type 0 where
  pub basis : Settled
  pub settled : IsSettled input w.db basis
  pub status : a.status ≡ AgreementState.draft
  pub form : a.form ≡ input.form
  pub bank : a.bank_id ≡ id_of_bank basis.bank
  pub new_number : any (λ b. b.agreement_number == a.agreement_number) w.db.agreements ≡ false
  pub inserted : v.db.agreements ≡ insert a w.db.agreements
  -- The parties of the request, the countersigner, and the accounts where the type names them.
  pub rows : List PartyRow
  pub of_parties : AreRowsOf a.id (all_parties basis.type basis.signer input.parties) rows
  pub joined : v.db.agreement_parties ≡ w.db.agreement_parties ++ rows

-- What the storing of an agreement did.
record IsStored (input : CreateAgreementInput) (s : Settled) (d d' : Db) (a : AgreementRow)
    : Type 0 where
  new_number : any (λ b. b.agreement_number == a.agreement_number) d.agreements ≡ false
  rows : List PartyRow
  of_parties : AreRowsOf a.id (all_parties s.type s.signer input.parties) rows
  tables : stored d' ≡ (insert a d.agreements, d.agreement_parties ++ rows)

module _ (platform : Platform) (input : CreateAgreementInput) (actor : Principal)
    (ctx : ClientContext) where
  store_agreement-inverse :
      (s : Settled) (b : AgreementRow) (w v : World) (a : AgreementRow)
      → store_agreement platform input actor ctx s b w ≡ done a v
      → (b ≡ a) × IsStored input s w.db v.db b
  unfolding store_agreement audit_record
  store_agreement-inverse s b w v a h =
      let (t1, w1, e1, k1) = >>-inverse (insert_agreement b) _ h in
      let (t2, w2, e2, k2) =
        >>-inverse (insert_parties b.id (all_parties s.type s.signer input.parties)) _ k1 in
      let (t3, w3, e3, k3) = >>-inverse (write _) _ k2 in
      let (same, end) = return-inverse k3 in
      let (new_number, first_tables) = insert_agreement-inverse b w w1 t1 e1 in
      let (rows, are, tables) =
        insert_parties-inverse b.id (all_parties s.type s.signer input.parties) w1 w2 t2 e2 in
      (
        same,
        record {
          new_number = new_number;
          rows = rows;
          of_parties = are;
          tables =
              sym (ap (λ x. stored x.db) (write-inverse _ e3 ∙ end))
              ∙ tables
              ∙ ap (λ q. (q.0, q.1 ++ rows)) first_tables;
        },
      )

  create_in-inverse :
      (s : Settled) (w v : World) (a : AgreementRow)
      → create_in platform input actor ctx s w ≡ done a v
      → (a.status ≡ AgreementState.draft)
        × (a.form ≡ input.form)
        × (a.bank_id ≡ id_of_bank s.bank)
        × IsStored input s w.db v.db a
  unfolding create_in fresh_id current_time draft_row
  create_in-inverse s w v a h =
      let (now, w1, e1, k1) = >>=-inverse current_time _ h in
      let (number, w2, e2, k2) = >>=-inverse (next_agreement_number _ s.type.code) _ k1 in
      let (id, w3, e3, k3) = >>=-inverse fresh_id _ k2 in
      let (same, i) = store_agreement-inverse s (draft_row input s actor id number now) w3 v a k3 in
      let before : stored w3.db ≡ stored w.db =
        sym (ap (λ x. stored x.db) (done-injective e3).1)
        ∙ Keeps-done stored (next_agreement_number _ s.type.code)
            (next_agreement_number-Keeps _ s.type.code) e2
        ∙ sym (ap (λ x. stored x.db) (done-injective e1).1) in
      (
        sym (ap (λ r. r.status) same),
        sym (ap (λ r. r.form) same),
        sym (ap (λ r. r.bank_id) same),
        record {
          new_number =
              ap (λ r. any (λ b. b.agreement_number == r.agreement_number) w.db.agreements)
                (sym same)
              ∙ ap (λ q. any (λ b. b.agreement_number == number) q.0) (sym before)
              ∙ i.new_number;
          rows = i.rows;
          of_parties =
              subst (λ r. AreRowsOf r.id (all_parties s.type s.signer input.parties) i.rows) same
                i.of_parties;
          tables =
              i.tables
              ∙ ap (λ r. (insert r w3.db.agreements, w3.db.agreement_parties ++ i.rows)) same
              ∙ ap (λ q. (insert a q.0, q.1 ++ i.rows)) before;
        },
      )

  -- A creation that returns found the type active, an agent and an MD among the parties and no
  -- employee, and the countersigner whom the bank designates, or the type where there is no
  -- bank, active; it has stored a draft with the data of the request and a number that no
  -- agreement had, and the parties of the request with the countersigner and the accounts, and
  -- nothing else in these tables.
  pub create_agreement-IsCreated :
      (w v : World) (a : AgreementRow)
      → create_agreement platform input actor ctx w ≡ done a v
      → IsCreated input w v a
  unfolding create_agreement
  create_agreement-IsCreated w v a h =
      let (s, w1, e1, k1) = >>=-inverse (settle_agreement platform input actor) _ h in
      let (settled, same) = settle_agreement-inverse platform input actor w w1 s e1 in
      let (status, form, bank, i) =
        create_in-inverse s w1 v a
          (transaction-inverse (create_in platform input actor ctx s) k1) in
      record {
        basis = s;
        settled = settled;
        status = status;
        form = form;
        bank = bank;
        new_number =
            ap (λ d. any (λ b. b.agreement_number == a.agreement_number) d.agreements) (sym same)
            ∙ i.new_number;
        inserted = ap (λ q. q.0) i.tables ∙ ap (λ d. insert a d.agreements) same;
        rows = i.rows;
        of_parties = i.of_parties;
        joined = ap (λ q. q.1) i.tables ∙ ap (λ d. d.agreement_parties ++ i.rows) same;
      }

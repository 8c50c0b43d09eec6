-- ===== src/Banks/Examples.antt =====
-- Two uploads for a bank, and the theorem applied to the second.
use onlineaggrement.Base.{
  ℕ, suc, ◌≡◌, refl, true, false, List, [], ◌∷◌, none, codes, select, map, first, update_where,
  length, nat_eq, ◌==◌, ℕ_eq,
}
use onlineaggrement.Errors.{ok, validation, not_found}
use onlineaggrement.Database.{World, empty_db, BankRow, BankDocumentRow}
use onlineaggrement.Service.{
  done, fail, final, ◌>>=◌, ◌>>◌, return, throw, throw_if, or_throw, from_result, query, write,
  fresh_id, transaction,
}
use onlineaggrement.Audit.{audit_record}
use onlineaggrement.Documents.Storage.{put_object, exists_object, link_object, same_key, same_name}
use onlineaggrement.Documents.Composing.{Authoring}
use onlineaggrement.Signing.Worlds.{platform}
use onlineaggrement.Banks.{get_bank}
use onlineaggrement.Banks.Documents.{
  BankFile, latest_version, clashes, is_active_of, insert_bank_document, deactivate, new_document,
  store_row, store_document, upload_in, upload_document, active_document, active_or_throw,
}
use onlineaggrement.Banks.Documents.Activation.{upload_document-activates}

-- A conversion keeps the bytes, and each byte is a page.
abbrev authoring : Authoring
authoring = record {
  render = λ i. ok [];
  to_pdf = λ b name type. ok b;
  compose = λ b s. ok (record { buffer = b; page_count = length b });
  count_pages = λ b. ok (length b);
}

abbrev bank : ℕ → BankRow
bank id = record {
  id = id;
  code = codes "B";
  name = codes "Bank";
  contact_email = none;
  contact_person = none;
  employee_signer_user_id = none;
  is_active = true;
}

abbrev start : World
start = record {
  db = record empty_db { banks = bank 1 ∷ bank 2 ∷ [] };
  objects = [];
  now = 1000;
  next_id = 5;
}

abbrev file : List ℕ → BankFile
file bytes = record { buffer = bytes; filename = "a.docx"; content_type = "application/pdf" }

-- What a test of an upload computes with.
uploading : Unit {0}
unfolding ◌>>=◌ ◌>>◌ return throw throw_if or_throw from_result query write fresh_id transaction
    audit_record put_object exists_object link_object same_key same_name get_bank latest_version
    clashes insert_bank_document deactivate new_document store_row store_document upload_in
    upload_document active_document active_or_throw first update_where
uploading = tt

abbrev once : World
unfolding uploading
once = final (upload_document platform authoring 1 (file (7 ∷ [])) 3 start)

abbrev twice : World
unfolding uploading
twice = final (upload_document platform authoring 1 (file (8 ∷ 9 ∷ [])) 3 once)

abbrev second : BankDocumentRow
unfolding uploading
second = new_document platform authoring (file (8 ∷ 9 ∷ [])) (8 ∷ 9 ∷ []) 2 6 1 2

upload_tests :
    (upload_document platform authoring 1 (file []) 3 start ≡ fail validation start)
    × (upload_document platform authoring 4 (file []) 3 start ≡ fail (not_found "Bank") start)
    × (active_document 1 start ≡ fail validation start)
    × (active_document 4 start ≡ fail (not_found "Bank") start)
    × (map (λ r. r.is_active) twice.db.bank_agreement_documents ≡ false ∷ true ∷ [])
unfolding uploading
upload_tests = (refl, refl, refl, refl, refl)

uploaded : upload_document platform authoring 1 (file (8 ∷ 9 ∷ [])) 3 once ≡ done second twice
unfolding uploading
uploaded = refl

upload_document-activates_example :
    (select (is_active_of 1) twice.db.bank_agreement_documents ≡ second ∷ [])
    × (active_document 1 twice ≡ done second twice)
    × (second.version_no ≡ suc (latest_version 1 once.db.bank_agreement_documents))
    × ((i : ℕ)
        → nat_eq 1 i ≡ false
        → select (λ d. d.bank_id == i) twice.db.bank_agreement_documents
          ≡ select (λ d. d.bank_id == i) once.db.bank_agreement_documents)
upload_document-activates_example =
    upload_document-activates platform authoring 1 (file (8 ∷ 9 ∷ [])) 3 once twice second uploaded

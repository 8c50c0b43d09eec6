-- ===== src/Banks/Documents.antt =====
-- The agreement documents of a bank: one is active (uploadDocument and activeDocument of
-- api/src/banks/banks.service.ts).
pub mod Activation
use onlineaggrement.Base.{
  ℕ, zero, suc, ◌+◌, ◌*◌, Bool, true, false, not, ◌&&◌, ◌||◌, List, [], ◌∷◌, ◌++◌, Option, none,
  some, String, any, first, select, reverse, insert, update_where, max, ltb, nat_eq, length, ◌==◌,
  ℕ_eq,
}
use onlineaggrement.Errors.{validation, other_error}
use onlineaggrement.Database.{
  Db, BankRow, BankDocumentRow, FileKey, FileName, bank_source, bank_agreement, num, str, txt,
  configuration_changed,
}
use onlineaggrement.Service.{
  M, ◌>>=◌, ◌>>◌, return, throw, throw_if, or_throw, from_result, query, write, fresh_id,
  transaction,
}
use onlineaggrement.Audit.{audit_record}
use onlineaggrement.Documents.{Platform}
use onlineaggrement.Documents.Storage.{put_object}
use onlineaggrement.Documents.Composing.{Authoring}
use onlineaggrement.Banks.{get_bank, by_actor}

abbrev pub max_document_bytes : ℕ
max_document_bytes = 12 * 1024 * 1024

pub record BankFile : Type 0 where
  pub buffer : List ℕ
  pub filename : String
  pub content_type : String

-- `coalesce(max(version_no), 0)`
unfoldable pub latest_version : ℕ → List BankDocumentRow → ℕ
latest_version bank_id [] = 0
latest_version bank_id (d ∷ rows) =
    max (elim (d.bank_id == bank_id) [ true ↦ d.version_no | false ↦ 0 ])
      (latest_version bank_id rows)

abbrev key_of : FileName → ℕ → FileKey
key_of name version = record {
  agreement_number = [];
  version = version;
  year = 0;
  month = 0;
  name = name;
}

abbrev pub is_active_of : ℕ → BankDocumentRow → Bool
is_active_of bank_id d = d.bank_id == bank_id && d.is_active

-- The unique version of a bank, and its one active document.
unfoldable pub clashes : BankDocumentRow → BankDocumentRow → Bool
clashes a b =
    a.bank_id == b.bank_id && (nat_eq a.version_no b.version_no || a.is_active && b.is_active)

unfoldable pub insert_bank_document : BankDocumentRow → M (Unit {0})
insert_bank_document r = do
  taken ← query (λ d. any (clashes r) d.bank_agreement_documents)
  throw_if taken (other_error "unique_violation")
  write (λ d. record d { bank_agreement_documents = insert r d.bank_agreement_documents })

unfoldable pub deactivate : ℕ → M (Unit {0})
deactivate bank_id = write λ d. record d {
  bank_agreement_documents =
      update_where (is_active_of bank_id) (λ r. record r { is_active = false })
        d.bank_agreement_documents;
}

unfoldable pub store_row : BankRow → BankDocumentRow → ℕ → M BankDocumentRow
store_row bank row actor_id = do
  insert_bank_document row
  audit_record configuration_changed
      (("change", str "BANK_DOCUMENT_UPLOADED")
        ∷ ("bankId", num bank.id)
        ∷ ("bankName", txt bank.name)
        ∷ ("versionNo", num row.version_no)
        ∷ ("hash", num row.converted_hash)
        ∷ ("pageCount", num row.page_count)
        ∷ [])
      (by_actor actor_id)
  return row

module _ (platform : Platform) (authoring : Authoring) where
  unfoldable pub new_document : BankFile → List ℕ → ℕ → (id bank_id next : ℕ) → BankDocumentRow
  new_document file converted pages id bank_id next = record {
    id = id;
    bank_id = bank_id;
    version_no = next;
    original_filename = file.filename;
    original_content_type = file.content_type;
    file_key = key_of (bank_source bank_id) next;
    file_hash = platform.sha256 file.buffer;
    converted_file_key = some (key_of (bank_agreement bank_id) next);
    converted_hash = platform.sha256 converted;
    page_count = pages;
    is_active = true;
  }

  -- The row becomes the bank's active one.
  unfoldable pub store_document :
      BankRow → BankFile → List ℕ → (pages next actor_id : ℕ) → M BankDocumentRow
  store_document bank file converted pages next actor_id = do
    deactivate bank.id
    id ← fresh_id
    store_row bank (new_document file converted pages id bank.id next) actor_id

  unfoldable pub upload_in : BankRow → BankFile → List ℕ → ℕ → ℕ → M BankDocumentRow
  upload_in bank file converted pages actor_id = do
    latest ← query (λ d. latest_version bank.id d.bank_agreement_documents)
    put_object (key_of (bank_source bank.id) (suc latest)) file.buffer
    put_object (key_of (bank_agreement bank.id) (suc latest)) converted
    store_document bank file converted pages (suc latest) actor_id

  unfoldable pub upload_document : ℕ → BankFile → ℕ → M BankDocumentRow
  upload_document bank_id file actor_id = do
    bank ← get_bank bank_id
    throw_if (nat_eq (length file.buffer) 0) validation
    throw_if (ltb max_document_bytes (length file.buffer)) validation
    converted ← from_result (authoring.to_pdf file.buffer file.filename file.content_type)
    pages ← from_result (authoring.count_pages converted)
    transaction (upload_in bank file converted pages actor_id)

-- Without an active document, a bank that is not there is what is reported.
unfoldable pub active_or_throw : ℕ → Option BankDocumentRow → M BankDocumentRow
active_or_throw bank_id none = get_bank bank_id >>= λ bank. throw validation
active_or_throw bank_id (some r) = return r

unfoldable pub active_document : ℕ → M BankDocumentRow
active_document bank_id =
    query (λ d. first (is_active_of bank_id) d.bank_agreement_documents) >>= active_or_throw bank_id

-- The latest first.
unfoldable pub document_versions : ℕ → M (List BankDocumentRow)
document_versions bank_id = do
  bank ← get_bank bank_id
  query (λ d. reverse (select (λ r. r.bank_id == bank_id) d.bank_agreement_documents))

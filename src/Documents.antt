-- ===== src/Documents.antt =====
-- The document pipeline (api/src/documents/documents.service.ts). The PDF code beneath it is an
-- interface.
pub mod Storage
pub mod WriteOnce
pub mod Composing
mod Examples
use onlineaggrement.Base.{
  ℕ, Bool, true, false, ◌&&◌, List, [], ◌∷◌, Option, none, some, String, Text, any, select, insert,
  length, not, nat_eq, ◌==◌, ℕ_eq, if◌then◌else◌, suc,
}
use onlineaggrement.Errors.{not_found, signature_integrity, other_error, Result, ok, err}
use onlineaggrement.Database.{
  Db, World, FileKey, FileName, doc_file, pending_file, DocType, generated_unsigned,
  prepared_unsigned, uploaded_source, composed_unsigned, SignatureState, unsigned,
  AgreementVersionRow, DocumentRow, PartyType, Datum,
}
use onlineaggrement.Database
use onlineaggrement.Service.{
  M, ◌>>=◌, ◌>>◌, return, throw_if, throw, or_throw, from_result, branch, query, write,
  current_time, fresh_id, catch,
}
use onlineaggrement.Documents.Storage.{get_object, put_object, exists_object, same_key}
use onlineaggrement.Workflow.Rules.{SigningParty, agent_party, employee_party, md_party}

pub record Slot : Type 0 where
  pub buffer : List ℕ
  pub signed_content : List ℕ

-- What a signature shows: its reason is completed by the agreement's number.
pub record Appearance : Type 0 where
  pub signer_name : Text
  pub reason : String
  pub reason_of : Text
  pub location : Datum

-- What the service uses of the PDF code, of SHA-256, of the calendar and of the
-- source of random bytes.
pub record Platform : Type 0 where
  pub sha256 : List ℕ → ℕ
  pub year : ℕ → ℕ
  pub month : ℕ → ℕ
  -- What the n-th drawing of random bytes gives.
  pub random_bytes : ℕ → List ℕ
  pub prepare : List ℕ → Result (List ℕ)
  pub prepare_slot : SigningParty → Appearance → List ℕ → Result Slot
  pub reopen_slot : List ℕ → Result Slot
  pub embed : Slot → List ℕ → Result (List ℕ)
  -- The number of signatures on a document.
  pub verify : List ℕ → Result ℕ
  -- The same, if all of them verify and there are as many as expected.
  pub assert_integrity : List ℕ → ℕ → Result ℕ

abbrev pub document_after : SigningParty → DocType
document_after agent_party = DocType.agent_signed
document_after employee_party = DocType.employee_signed
document_after md_party = DocType.final

abbrev pub state_after : SigningParty → SignatureState
state_after agent_party = SignatureState.agent_signed
state_after employee_party = SignatureState.employee_signed
state_after md_party = SignatureState.final

abbrev pub party_type : SigningParty → PartyType
party_type agent_party = PartyType.agent
party_type employee_party = PartyType.employee
party_type md_party = PartyType.md

abbrev state_index : SignatureState → ℕ
state_index SignatureState.unsigned = 0
state_index SignatureState.agent_signed = 1
state_index SignatureState.employee_attested = 2
state_index SignatureState.employee_signed = 3
state_index SignatureState.final = 4

pub record StoredVersion : Type 0 where
  pub version_id : Option ℕ
  pub document_id : ℕ
  pub file_key : FileKey
  pub document_hash : ℕ
  pub size_bytes : ℕ

pub record StoreParams : Type 0 where
  pub agreement_id : ℕ
  pub agreement_number : Text
  pub version : ℕ
  pub doc : List ℕ
  pub doc_type : DocType
  pub signature_state : Option SignatureState

-- The unique columns of `agreement_versions` and `agreement_documents`.
unfoldable pub is_version : ℕ → ℕ → SignatureState → AgreementVersionRow → Bool
is_version agreement_id version state v =
    v.agreement_id == agreement_id
    && v.version_no == version
    && nat_eq (state_index v.signature_state) (state_index state)

unfoldable pub insert_version : AgreementVersionRow → M (Unit {0})
insert_version v = do
  taken ←
      query
        (λ d. any (is_version v.agreement_id v.version_no v.signature_state) d.agreement_versions)
  throw_if taken (other_error "unique_violation")
  write (λ d. record d { agreement_versions = insert v d.agreement_versions })

-- Only a document with a state of the signatures is a version.
unfoldable pub store_version : StoreParams → ℕ → FileKey → Option SignatureState → M (Option ℕ)
store_version params hash key none = return none
store_version params hash key (some state) = do
  id ← fresh_id
  insert_version (record {
    id = id;
    agreement_id = params.agreement_id;
    version_no = params.version;
    signature_state = state;
    document_hash = hash;
    file_key = key;
  })
  return (some id)

unfoldable pub insert_document : DocumentRow → M (Unit {0})
insert_document r = do
  taken ← query (λ d. any (λ x. same_key x.file_key r.file_key) d.agreement_documents)
  throw_if taken (other_error "unique_violation")
  write (λ d. record d { agreement_documents = insert r d.agreement_documents })

module _ (platform : Platform) where
  -- `objectKey`, of the year and the month of the time at which the object is written.
  unfoldable pub object_key : Text → ℕ → FileName → ℕ → FileKey
  object_key agreement_number version name now = record {
    agreement_number = agreement_number;
    version = version;
    year = platform.year now;
    month = platform.month now;
    name = name;
  }

  unfoldable pub store : StoreParams → M StoredVersion
  store params = do
    now ← current_time
    let hash = platform.sha256 params.doc
    let key = object_key params.agreement_number params.version (doc_file params.doc_type) now
    put_object key params.doc
    version_id ← store_version params hash key params.signature_state
    document_id ← fresh_id
    insert_document (record {
      id = document_id;
      agreement_id = params.agreement_id;
      agreement_version_id = version_id;
      doc_type = params.doc_type;
      file_key = key;
      size_bytes = length params.doc;
      document_hash = hash;
    })
    return (record {
      version_id = version_id;
      document_id = document_id;
      file_key = key;
      document_hash = hash;
      size_bytes = length params.doc;
    })

abbrev last_row {ℓ} : {A : Type ℓ} → List A → Option A
last_row [] = none
last_row (x ∷ xs) = elim (last_row xs) [ none ↦ some x | some y ↦ some y ]

-- The row that was inserted last.
unfoldable pub current_version : ℕ → ℕ → M AgreementVersionRow
current_version agreement_id version =
    query (λ d. last_row (
      select (λ v. v.agreement_id == agreement_id && v.version_no == version) d.agreement_versions))
    >>= λ row. or_throw row (not_found "Agreement document version")

pub record Prepared : Type 0 where
  pub pending_file_key : FileKey
  pub byte_range_digest : ℕ
  pub signatures_before : ℕ

pub record CompleteParams : Type 0 where
  pub agreement_id : ℕ
  pub agreement_number : Text
  pub version : ℕ
  pub pending_file_key : Option FileKey
  pub field : SigningParty
  pub der : List ℕ
  pub expected_digest : Option ℕ
  pub signatures_before : ℕ

abbrev is_expected : Option ℕ → ℕ → Bool
is_expected none digest = false
is_expected (some n) digest = n == digest

module _ (platform : Platform) where
  -- The first sixteen digits of the digest stand in the key: the whole digest here.
  unfoldable pub begin_signature : Text → ℕ → FileKey → SigningParty → Appearance → M Prepared
  begin_signature agreement_number version source_file_key field appearance = do
    source ← get_object source_file_key
    before ← from_result (platform.verify source)
    slot ← from_result (platform.prepare_slot field appearance source)
    now ← current_time
    let digest = platform.sha256 slot.signed_content
    let key =
        object_key platform agreement_number version (pending_file (party_type field) digest) now
    parked ← exists_object key
    branch parked (return tt) (put_object key slot.buffer)
    return
        (record { pending_file_key = key; byte_range_digest = digest; signatures_before = before })

  unfoldable pub complete_signature : CompleteParams → M StoredVersion
  complete_signature params = do
    key ← or_throw params.pending_file_key (other_error "ERR_INVALID_ARG_TYPE")
    pending ← get_object key
    slot ← from_result (platform.reopen_slot pending)
    throw_if (not (is_expected params.expected_digest (platform.sha256 slot.signed_content)))
        signature_integrity
    signed ← from_result (platform.embed slot params.der)
    count ←
        catch (from_result (platform.assert_integrity signed (suc params.signatures_before)))
          (λ e. throw signature_integrity)
    store platform (record {
      agreement_id = params.agreement_id;
      agreement_number = params.agreement_number;
      version = params.version;
      doc = signed;
      doc_type = document_after params.field;
      signature_state = some (state_after params.field);
    })

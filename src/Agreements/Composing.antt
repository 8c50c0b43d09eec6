-- ===== src/Agreements/Composing.antt =====
-- From a draft to a composed document that awaits the agent (allocateStamp,
-- composeFromBankDocument, uploadAgreementDocument and composeAndGenerate of
-- api/src/agreements/agreements.service.ts).
pub mod Readiness
use onlineaggrement.Base.{
  ℕ, Bool, true, false, not, ◌&&◌, List, [], ◌∷◌, ◌++◌, Option, none, some, String, Text, any,
  first, insert, update_where, ◌==◌, ℕ_eq,
}
use onlineaggrement.Errors.{conflict, validation, other_error, not_found}
use onlineaggrement.Database.{
  Db, AgreementRow, AgreementTypeRow, BankRow, BankDocumentRow, FileKey, SourceDocumentRow, Datum,
  null, num, str, txt, flag, user, agreement_generated, document_downloaded,
}
use onlineaggrement.Service.{
  M, ◌>>=◌, ◌>>◌, return, throw, throw_if, or_throw, branch, query, write, current_time,
  transaction, catch,
}
use onlineaggrement.Audit.{audit_record}
use onlineaggrement.Workflow.States.{AgreementState, AgreementState_eq, generate}
use onlineaggrement.Workflow.Service.{get_agreement, transition_in, TransitionRequest, no_patch}
use onlineaggrement.Documents.{Platform, current_version}
use onlineaggrement.Documents.Storage.{get_object}
use onlineaggrement.Documents.Composing.{
  Authoring, generate_document, compose_from_upload, ComposedVersion, GenerateParams,
}
use onlineaggrement.Stamps.{allocate, live_allocation}
use onlineaggrement.Signing.Parties.{Principal}
use onlineaggrement.Banks.Documents.{active_document}
use onlineaggrement.Agreements.Drafts.{ClientContext}

unfoldable pub assert_draft : AgreementRow → String → M (Unit {0})
assert_draft agreement rule =
    throw_if (not (agreement.status == AgreementState.draft)) (conflict (some rule))

unfoldable pub allocate_stamp : ℕ → ℕ → Principal → M ℕ
allocate_stamp agreement_id stamp_id actor = do
  agreement ← get_agreement agreement_id
  assert_draft agreement "FR-005"
  allocate (record { stamp_id = stamp_id; agreement_id = agreement_id; actor_id = actor.user_id })

-- The scan of the stamp that the agreement holds; one that cannot be read is passed over.
unfoldable pub stamp_file : ℕ → Db → Option FileKey
stamp_file agreement_id d = elim (live_allocation agreement_id d) [
  | none ↦ none
  | some a ↦ elim (first (λ p. p.id == a.stamp_paper_id) d.stamp_papers) [
    | none ↦ none
    | some p ↦ some p.file_key
  ]
]

unfoldable pub read_scan : Option FileKey → M (Option (List ℕ))
read_scan none = return none
read_scan (some key) = catch (get_object key >>= λ scan. return (some scan)) (λ e. return none)

unfoldable pub load_stamp_scan : ℕ → M (Option (List ℕ))
load_stamp_scan agreement_id = query (stamp_file agreement_id) >>= read_scan

unfoldable pub type_of : AgreementRow → M AgreementTypeRow
type_of agreement = do
  row ← query (λ d. first (λ t. t.id == agreement.agreement_type_id) d.agreement_types)
  or_throw row (other_error "TypeError")

abbrev pub holds_stamp : ℕ → Db → Bool
holds_stamp agreement_id d = elim (live_allocation agreement_id d) [ none ↦ false | some a ↦ true ]

unfoldable pub assert_stamped : AgreementTypeRow → ℕ → M (Unit {0})
assert_stamped type agreement_id = query (holds_stamp agreement_id) >>= λ held.
    throw_if (type.requires_stamp && not held) validation

unfoldable pub generate_transition :
    AgreementRow → Principal → ClientContext → List (String × Datum) → TransitionRequest
generate_transition agreement actor ctx details = record {
  agreement_id = agreement.id;
  action = generate;
  actor_id = some actor.user_id;
  actor_roles = actor.roles;
  trigger = user;
  reason = none;
  audit_event = some agreement_generated;
  audit_data = details;
  ip_address = ctx.ip_address;
  user_agent = ctx.user_agent;
  patch = no_patch;
}

pub record Attachment : Type 0 where
  pub file : List ℕ
  pub filename : String
  pub content_type : String
  pub source : String
  pub bank_document_id : Option ℕ

unfoldable pub source_row :
    AgreementRow → Attachment → Principal → ComposedVersion → SourceDocumentRow
source_row agreement attachment actor composed = record {
  agreement_id = agreement.id;
  agreement_version = agreement.current_version;
  original_filename = attachment.filename;
  original_content_type = attachment.content_type;
  original_file_key = composed.stored.file_key;
  original_hash = composed.stored.document_hash;
  page_count = composed.page_count;
  uploaded_by = actor.user_id;
}

abbrev is_source_of : SourceDocumentRow → SourceDocumentRow → Bool
is_source_of r x = x.agreement_id == r.agreement_id && x.agreement_version == r.agreement_version

-- `.onConflict(…).merge()`
abbrev merge_source : SourceDocumentRow → List SourceDocumentRow → Bool → List SourceDocumentRow
merge_source r rows true = update_where (is_source_of r) (λ x. r) rows
merge_source r rows false = insert r rows

unfoldable pub put_source : SourceDocumentRow → M (Unit {0})
put_source r = write λ d. record d {
  agreement_source_documents =
      merge_source r d.agreement_source_documents
        (any (is_source_of r) d.agreement_source_documents);
}

abbrev id_data : Option ℕ → Datum
id_data none = null
id_data (some n) = num n

pub record ComposedAgreement : Type 0 where
  pub document_hash : ℕ
  pub page_count : ℕ
  pub converted_from_word : Bool
  pub version : ℕ

module _ (platform : Platform) (authoring : Authoring) where
  unfoldable pub compose_in :
      AgreementRow → Attachment → Principal → ClientContext → Option (List ℕ) → M ComposedAgreement
  compose_in agreement attachment actor ctx stamp_scan = do
    composed ← compose_from_upload platform authoring (record {
      agreement_id = agreement.id;
      agreement_number = agreement.agreement_number;
      version = agreement.current_version;
      uploaded = attachment.file;
      filename = attachment.filename;
      content_type = attachment.content_type;
      stamp_scan = stamp_scan;
    })
    put_source (source_row agreement attachment actor composed)
    row ← transition_in (
        generate_transition agreement actor ctx (
          ("source", str attachment.source)
          ∷ ("bankDocumentId", id_data attachment.bank_document_id)
          ∷ ("originalFilename", str attachment.filename)
          ∷ ("convertedFromWord", flag composed.converted_from_word)
          ∷ ("pageCount", num composed.page_count)
          ∷ ("documentHash", num composed.stored.document_hash)
          ∷ []))
    return (record {
      document_hash = composed.stored.document_hash;
      page_count = composed.page_count;
      converted_from_word = composed.converted_from_word;
      version = agreement.current_version;
    })

  unfoldable pub compose_and_generate :
      AgreementRow → Attachment → Principal → ClientContext → M ComposedAgreement
  compose_and_generate agreement attachment actor ctx = do
    assert_draft agreement "BR-005"
    type ← type_of agreement
    assert_stamped type agreement.id
    stamp_scan ← load_stamp_scan agreement.id
    transaction (compose_in agreement attachment actor ctx stamp_scan)

  -- An agreement of a bank is composed from the bank's document, and from nothing else.
  unfoldable pub upload_agreement_document :
      ℕ → List ℕ → String → String → Principal → ClientContext → M ComposedAgreement
  upload_agreement_document agreement_id file filename content_type actor ctx = do
    agreement ← get_agreement agreement_id
    throw_if (elim agreement.bank_id [ none ↦ false | some b ↦ true ]) validation
    compose_and_generate agreement
        (record {
          file = file;
          filename = filename;
          content_type = content_type;
          source = "UPLOAD";
          bank_document_id = none;
        })
        actor ctx

  -- The converted document of the bank, or the one that was uploaded if it has none.
  unfoldable pub compose_from_bank :
      AgreementRow → Option ℕ → Principal → ClientContext → M ComposedAgreement
  compose_from_bank agreement none actor ctx = throw validation
  compose_from_bank agreement (some bank_id) actor ctx = do
    doc ← active_document bank_id
    file ← get_object (elim doc.converted_file_key [ none ↦ doc.file_key | some key ↦ key ])
    compose_and_generate agreement
        (record {
          file = file;
          filename = doc.original_filename;
          content_type = "application/pdf";
          source = "BANK_DOCUMENT";
          bank_document_id = some doc.id;
        })
        actor ctx

  unfoldable pub compose_from_bank_document : ℕ → Principal → ClientContext → M ComposedAgreement
  compose_from_bank_document agreement_id actor ctx = do
    agreement ← get_agreement agreement_id
    compose_from_bank agreement agreement.bank_id actor ctx

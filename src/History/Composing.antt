-- ===== src/History/Composing.antt =====
-- The history, for the stamps and the documents that drafts are given
-- (api/src/agreements/agreements.service.ts).
use onlineaggrement.Base.{ℕ, List, Option, none, some, String, Text, ℕ_eq}
use onlineaggrement.Database.{AgreementRow, FileKey, SourceDocumentRow, BankDocumentRow}
use onlineaggrement.Service.Keeps.{Keeps}
use onlineaggrement.Documents.{Platform}
use onlineaggrement.Documents.Composing.{
  Authoring, GenerateParams, ComposeParams, generate_document, compose_from_upload,
}
use onlineaggrement.Signing.Parties.{Principal}
use onlineaggrement.Banks.{get_bank}
use onlineaggrement.Banks.Documents.{active_document, active_or_throw}
use onlineaggrement.Agreements.Drafts.{ClientContext}
use onlineaggrement.Agreements.Composing.{
  assert_draft, allocate_stamp, read_scan, load_stamp_scan, type_of, assert_stamped, Attachment,
  put_source, compose_in, compose_and_generate, upload_agreement_document, compose_from_bank,
  compose_from_bank_document,
}
use onlineaggrement.Agreements.Generation.{generate_in, generate_agreement, document_url}
use onlineaggrement.History.{Follows}
use onlineaggrement.History.Steps.{steps, write-apart, get_agreement-Keeps}
use onlineaggrement.History.Documents.{get_object-Keeps, store-Keeps, current_version-Keeps}
use onlineaggrement.History.Recovery.{allocate-Keeps}

pub allocate_stamp-Keeps :
    (i stamp_id : ℕ) (actor : Principal) → Keeps Follows (allocate_stamp i stamp_id actor)
unfolding allocate_stamp assert_draft
allocate_stamp-Keeps i stamp_id actor = search (steps, get_agreement-Keeps, allocate-Keeps) depth 40

read_scan-Keeps : (key : Option FileKey) → Keeps Follows (read_scan key)
unfolding read_scan
read_scan-Keeps none = search steps
read_scan-Keeps (some key) = search (steps, get_object-Keeps) depth 40

load_stamp_scan-Keeps : (i : ℕ) → Keeps Follows (load_stamp_scan i)
unfolding load_stamp_scan
load_stamp_scan-Keeps i = search (steps, read_scan-Keeps)

put_source-Keeps : (r : SourceDocumentRow) → Keeps Follows (put_source r)
unfolding put_source
put_source-Keeps r = search (steps, write-apart)

active_or_throw-Keeps : (i : ℕ) (o : Option BankDocumentRow) → Keeps Follows (active_or_throw i o)
unfolding active_or_throw get_bank
active_or_throw-Keeps i none = search steps depth 40
active_or_throw-Keeps i (some r) = search steps

active_document-Keeps : (i : ℕ) → Keeps Follows (active_document i)
unfolding active_document
active_document-Keeps i = search (steps, active_or_throw-Keeps)

module _ (platform : Platform) (authoring : Authoring) where
  generate_document-Keeps :
      (params : GenerateParams) → Keeps Follows (generate_document platform authoring params)
  unfolding generate_document
  generate_document-Keeps params = search (steps, store-Keeps) depth 60

  compose_from_upload-Keeps :
      (params : ComposeParams) → Keeps Follows (compose_from_upload platform authoring params)
  unfolding compose_from_upload
  compose_from_upload-Keeps params = search (steps, store-Keeps) depth 60

  compose_and_generate-Keeps :
      (a : AgreementRow) (attachment : Attachment) (actor : Principal) (ctx : ClientContext)
      → Keeps Follows (compose_and_generate platform authoring a attachment actor ctx)
  unfolding compose_and_generate compose_in assert_draft type_of assert_stamped
  compose_and_generate-Keeps a attachment actor ctx =
      search (steps, load_stamp_scan-Keeps, compose_from_upload-Keeps, put_source-Keeps) depth 80

  pub upload_agreement_document-Keeps :
      (i : ℕ) (file : List ℕ) (filename content_type : String) (actor : Principal)
      (ctx : ClientContext)
      → Keeps Follows
          (upload_agreement_document platform authoring i file filename content_type actor ctx)
  unfolding upload_agreement_document
  upload_agreement_document-Keeps i file filename content_type actor ctx =
      search (steps, get_agreement-Keeps, compose_and_generate-Keeps) depth 40

  compose_from_bank-Keeps :
      (a : AgreementRow) (bank : Option ℕ) (actor : Principal) (ctx : ClientContext)
      → Keeps Follows (compose_from_bank platform authoring a bank actor ctx)
  unfolding compose_from_bank
  compose_from_bank-Keeps a none actor ctx = search steps
  compose_from_bank-Keeps a (some bank) actor ctx =
      search (steps, active_document-Keeps, get_object-Keeps, compose_and_generate-Keeps) depth 60

  pub compose_from_bank_document-Keeps :
      (i : ℕ) (actor : Principal) (ctx : ClientContext)
      → Keeps Follows (compose_from_bank_document platform authoring i actor ctx)
  unfolding compose_from_bank_document
  compose_from_bank_document-Keeps i actor ctx =
      search (steps, get_agreement-Keeps, compose_from_bank-Keeps) depth 40

  pub generate_agreement-Keeps :
      (i : ℕ) (actor : Principal) (ctx : ClientContext)
      → Keeps Follows (generate_agreement platform authoring i actor ctx)
  unfolding generate_agreement generate_in type_of assert_stamped
  generate_agreement-Keeps i actor ctx =
      search (steps, get_agreement-Keeps, load_stamp_scan-Keeps, generate_document-Keeps) depth 80

pub document_url-Keeps :
    (signed_url : FileKey → ℕ → Text) (i : ℕ) (actor : Principal) (ctx : ClientContext)
    → Keeps Follows (document_url signed_url i actor ctx)
unfolding document_url
document_url-Keeps signed_url i actor ctx =
    search (steps, get_agreement-Keeps, current_version-Keeps) depth 60

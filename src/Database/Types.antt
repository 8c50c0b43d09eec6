-- ===== src/Database/Types.antt =====
-- The enumerated columns of api/migrations, the keys of the object store, and JSON values.
use onlineaggrement.Base.{ℕ, Bool, String, Text}
use onlineaggrement.Workflow.States.{AgreementState, WorkflowAction, Role}

pub data PartyType : Type 0 where
  agent employee md accounts : PartyType

pub data DocType : Type 0 where
  uploaded_source composed_unsigned generated_unsigned prepared_unsigned agent_signed : DocType
  employee_attested employee_signed final : DocType

-- The last part of an object's key: the file of a document type, the half-signed document of a
-- party with its digest, the scan of a stamp with its digest, or the document of a bank as it was
-- supplied and as a PDF.
pub data FileName : Type 0 where
  doc_file : DocType → FileName
  pending_file : PartyType → ℕ → FileName
  scan_file : ℕ → FileName
  bank_source : ℕ → FileName
  bank_agreement : ℕ → FileName

-- A key of the object store, by its parts.
pub record FileKey : Type 0 where
  pub agreement_number : Text
  pub version : ℕ
  pub year : ℕ
  pub month : ℕ
  pub name : FileName

-- A value in a JSON column.
pub data Datum : Type 0 where
  null : Datum
  num : ℕ → Datum
  str : String → Datum
  txt : Text → Datum
  status : AgreementState → Datum
  act : WorkflowAction → Datum
  role : Role → Datum
  flag : Bool → Datum

pub data Trigger : Type 0 where
  user system provider_callback scheduler : Trigger

pub data AuditEvent : Type 0 where
  agreement_created agreement_corrected agreement_generated : AuditEvent
  stamp_uploaded stamp_allocated stamp_released stamp_marked_used : AuditEvent
  agent_sign_initiated agent_signed employee_sign_initiated employee_signed : AuditEvent
  md_sign_initiated md_signed md_rejected : AuditEvent
  role_granted configuration_changed login_succeeded login_failed : AuditEvent
  party_access_issued party_access_redeemed : AuditEvent
  agreement_completed agreement_expired final_document_generated : AuditEvent
  email_sent email_failed document_downloaded : AuditEvent
  signature_failed signature_integrity_alert : AuditEvent
  -- The event `STATE_…` of a transition that names no event of its own.
  state_event : AgreementState → AuditEvent

pub data SignatureState : Type 0 where
  unsigned agent_signed employee_attested employee_signed final : SignatureState

pub data EsignStatus : Type 0 where
  initiated pending_signer signed failed expired cancelled : EsignStatus

pub data CallbackOutcome : Type 0 where
  applied duplicate rejected_signature unmatched stale : CallbackOutcome

pub data SignatureEventType : Type 0 where
  sign_initiated signed failed rejected : SignatureEventType

pub data StampStatus : Type 0 where
  available allocated used : StampStatus

pub data NotificationEvent : Type 0 where
  agent_signed employee_approved employee_signed completed rejected reminder : NotificationEvent

pub data NotificationStatus : Type 0 where
  queued sent delivered failed bounced : NotificationStatus

pub data UserType : Type 0 where
  internal external : UserType

pub data TemplateStatus : Type 0 where
  draft approved retired : TemplateStatus

pub data IdentifierKind : Type 0 where
  certificate_no unique_doc_ref paper_serial other_identifier : IdentifierKind

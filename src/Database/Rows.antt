-- ===== src/Database/Rows.antt =====
-- The rows of the tables of agreements, documents, signatures, stamps and notifications, with the
-- columns that the modelled code uses (api/migrations).
use onlineaggrement.Base.{ℕ, Bool, List, Option, String, Text}
use onlineaggrement.Workflow.States.{AgreementState}
use onlineaggrement.Database.Types.{
  PartyType, DocType, FileKey, Datum, Trigger, AuditEvent, SignatureState, EsignStatus,
  CallbackOutcome, SignatureEventType, StampStatus, NotificationEvent, NotificationStatus,
}

pub record AgreementRow : Type 0 where
  pub id : ℕ
  pub agreement_number : Text
  pub agreement_type_id : ℕ
  pub template_version_id : Option ℕ
  pub status : AgreementState
  pub current_version : ℕ
  pub row_version : ℕ
  pub stamped : Bool
  pub external_parties : Bool
  pub place_of_execution_state : Option String
  pub form : List (String × Datum)
  pub bank_id : Option ℕ
  pub created_by : ℕ
  pub updated_at : ℕ
  pub expires_at : Option ℕ
  pub execution_reference : Option Text
  pub verification_token : Option Text
  pub completed_at : Option ℕ
  pub rejected_reason : Option Text
  pub rejected_by : Option ℕ
  pub rejected_at : Option ℕ

pub record WorkflowTransitionRow : Type 0 where
  pub agreement_id : ℕ
  pub agreement_version : ℕ
  pub from_state : AgreementState
  pub to_state : AgreementState
  pub actor_id : Option ℕ
  pub trigger : Trigger
  pub reason : Option Text

pub record AuditRow : Type 0 where
  pub agreement_id : Option ℕ
  pub agreement_version : Option ℕ
  pub actor_id : Option ℕ
  pub event_type : AuditEvent
  pub event_data : List (String × Datum)
  pub ip_address : Option String
  pub user_agent : Option String

pub record StageSlaRow : Type 0 where
  pub agreement_type_id : ℕ
  pub stage : AgreementState
  pub sla_days : ℕ
  pub reminder_days : List ℕ

pub record AgreementVersionRow : Type 0 where
  pub id : ℕ
  pub agreement_id : ℕ
  pub version_no : ℕ
  pub signature_state : SignatureState
  pub document_hash : ℕ
  pub file_key : FileKey

pub record DocumentRow : Type 0 where
  pub id : ℕ
  pub agreement_id : ℕ
  pub agreement_version_id : Option ℕ
  pub doc_type : DocType
  pub file_key : FileKey
  pub size_bytes : ℕ
  pub document_hash : ℕ

pub record VersionHistoryRow : Type 0 where
  pub agreement_id : ℕ
  pub version_no : ℕ
  pub status_at_close : AgreementState
  pub rejection_reason : Option Text
  pub superseded_by_version : ℕ
  pub voided_signature_count : ℕ

pub record EsignTransactionRow : Type 0 where
  pub id : ℕ
  pub agreement_id : ℕ
  pub party_id : ℕ
  pub agreement_version : ℕ
  pub provider : String
  pub provider_transaction_id : String
  pub byte_range_digest : Option ℕ
  pub document_hash : ℕ
  pub pending_file_key : Option FileKey
  pub status : EsignStatus
  pub attempt_no : ℕ
  pub failure_code : Option String
  pub initiated_at : ℕ
  pub completed_at : Option ℕ

pub record CallbackEventRow : Type 0 where
  pub provider : String
  pub provider_event_id : String
  pub signature_valid : Bool
  pub esign_transaction_id : Option ℕ
  pub outcome : Option CallbackOutcome

pub record SignatureEventRow : Type 0 where
  pub agreement_id : ℕ
  pub party_id : ℕ
  pub agreement_version : ℕ
  pub event_type : SignatureEventType
  pub document_hash : ℕ
  pub esign_transaction_id : Option ℕ

pub record PartyRow : Type 0 where
  pub id : ℕ
  pub agreement_id : ℕ
  pub party_type : PartyType
  pub user_id : Option ℕ
  pub name : Text
  pub email : Text
  pub mobile : Option Text
  pub identity_reference : Option Text
  pub signing_order : ℕ
  pub acted : Bool

pub record StampPaperRow : Type 0 where
  pub id : ℕ
  pub stamp_number : Option Text
  pub denomination : ℕ
  pub state_code : String
  pub file_key : FileKey
  pub document_hash : ℕ
  pub status : StampStatus

pub record StampAllocationRow : Type 0 where
  pub id : ℕ
  pub stamp_paper_id : ℕ
  pub agreement_id : ℕ
  pub allocated_by : ℕ
  pub released_at : Option ℕ
  pub released_reason : Option Text

pub record NotificationRow : Type 0 where
  pub id : ℕ
  pub agreement_id : ℕ
  pub event_type : NotificationEvent
  pub subject : Text
  pub payload : List (String × Datum)
  pub created_at : ℕ
  pub dispatched_at : Option ℕ

pub record RecipientRow : Type 0 where
  pub id : ℕ
  pub notification_id : ℕ
  pub party_id : ℕ
  pub email : Text
  pub status : NotificationStatus
  pub sent_at : Option ℕ
  pub provider_message_id : Option Text
  pub failure_reason : Option Text
  pub attempt_count : ℕ

pub record OutboxRow : Type 0 where
  pub aggregate_id : ℕ
  pub event_type : NotificationEvent
  pub notification_id : ℕ

pub record ExecutionSequenceRow : Type 0 where
  pub agent_code : Text
  pub financial_year : Text
  pub next_value : ℕ

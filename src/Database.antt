-- ===== src/Database.antt =====
-- The tables that the services of api/src read and write, as the migrations of api/migrations
-- declare them. Identifiers, times and digests are numbers; a time is in milliseconds.
mod Types
mod Rows
mod Admin
mod Constraints
pub use Types.*
pub use Rows.*
pub use Admin.*
pub use Constraints.*
use onlineaggrement.Workflow.States.{Role}
use onlineaggrement.Base.{ℕ, List, []}

pub record Db : Type 0 where
  pub agreements : List AgreementRow
  pub workflow_transitions : List WorkflowTransitionRow
  pub audit_logs : List AuditRow
  pub stage_slas : List StageSlaRow
  pub agreement_versions : List AgreementVersionRow
  pub agreement_documents : List DocumentRow
  pub agreement_version_history : List VersionHistoryRow
  pub esign_transactions : List EsignTransactionRow
  pub esign_callback_events : List CallbackEventRow
  pub signature_events : List SignatureEventRow
  pub agreement_parties : List PartyRow
  pub stamp_papers : List StampPaperRow
  pub stamp_allocations : List StampAllocationRow
  pub notifications : List NotificationRow
  pub notification_recipients : List RecipientRow
  pub outbox_events : List OutboxRow
  pub users : List UserRow
  pub banks : List BankRow
  pub agent_execution_sequences : List ExecutionSequenceRow
  pub roles : List Role
  pub user_roles : List UserRoleRow
  pub md_delegations : List MdDelegationRow
  pub party_access_tokens : List PartyAccessTokenRow
  pub bank_agreement_documents : List BankDocumentRow
  pub agreement_types : List AgreementTypeRow
  pub agreement_templates : List TemplateRow
  pub agreement_template_versions : List TemplateVersionRow
  pub agreement_number_sequences : List AgreementNumberRow
  pub agreement_source_documents : List SourceDocumentRow
  pub stamp_identifiers : List StampIdentifierRow

-- What a service works on: the database, the object store, the clock, and the identifiers not
-- yet handed out. A rollback restores the database alone.
pub record World : Type 0 where
  pub db : Db
  pub objects : List (FileKey × List ℕ)
  pub now : ℕ
  pub next_id : ℕ

abbrev pub empty_db : Db
empty_db = record {
  agreements = [];
  workflow_transitions = [];
  audit_logs = [];
  stage_slas = [];
  agreement_versions = [];
  agreement_documents = [];
  agreement_version_history = [];
  esign_transactions = [];
  esign_callback_events = [];
  signature_events = [];
  agreement_parties = [];
  stamp_papers = [];
  stamp_allocations = [];
  notifications = [];
  notification_recipients = [];
  outbox_events = [];
  users = [];
  banks = [];
  agent_execution_sequences = [];
  roles = [];
  user_roles = [];
  md_delegations = [];
  party_access_tokens = [];
  bank_agreement_documents = [];
  agreement_types = [];
  agreement_templates = [];
  agreement_template_versions = [];
  agreement_number_sequences = [];
  agreement_source_documents = [];
  stamp_identifiers = [];
}

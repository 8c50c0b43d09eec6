-- ===== src/Signing/Completion.antt =====
-- The completion of a signature (completeSignature and finalize of
-- api/src/signing/signing.service.ts).
use onlineaggrement.Base.{
  ℕ, Bool, true, false, List, [], ◌∷◌, Option, none, some, String, Text, Text_eq, update_where,
  ◌==◌, ℕ_eq,
}
use onlineaggrement.Errors.{DomainError, signature_integrity, validation}
use onlineaggrement.Database.{
  AgreementRow, PartyType, PartyRow, Datum, num, str, txt, null, EsignTransactionRow, EsignStatus,
  SignatureEventType, NotificationEvent, system, provider_callback, final_document_generated,
  agreement_completed,
}
use onlineaggrement.Service.{
  M, ◌>>=◌, ◌>>◌, return, throw, or_throw, from_result, branch, write, current_time, fresh_id,
  transaction, catch,
}
use onlineaggrement.Audit.{audit_record}
use onlineaggrement.Workflow.States.{WorkflowAction, Role}
use onlineaggrement.Workflow.Rules.{SigningParty, agent_party, employee_party, md_party}
use onlineaggrement.Workflow.Service.{
  TransitionRequest, Patch, no_patch, get_agreement, transition_in,
}
use onlineaggrement.Workflow.Corrections.{transition_chain_in}
use onlineaggrement.Documents.{Platform, StoredVersion, complete_signature}
use onlineaggrement.Esign.{Provider, get_transaction, mark_signed, record_integrity_alert}
use onlineaggrement.Stamps.{mark_used}
use onlineaggrement.Notifications.{enqueue}
use onlineaggrement.Signing.Parties.{signing_party, signing_party_of, party_by_id}
use onlineaggrement.Signing.Reference.{mint_execution_reference}
use onlineaggrement.Signing.Tokens.{generate_verification_token}
use onlineaggrement.Signing.Ceremony.{add_signature_event, fail_signature}

unfoldable pub finalize : (agreement_id : ℕ) (final_hash : ℕ) → M (Unit {0})
finalize agreement_id final_hash = do
  mark_used agreement_id none
  audit_record final_document_generated (("documentHash", num final_hash) ∷ []) (record {
    agreement_id = some agreement_id;
    agreement_version = none;
    actor_id = none;
    ip_address = none;
    user_agent = none;
  })
  audit_record agreement_completed (("documentHash", num final_hash) ∷ []) (record {
    agreement_id = some agreement_id;
    agreement_version = none;
    actor_id = none;
    ip_address = none;
    user_agent = none;
  })
  enqueue (record {
    agreement_id = agreement_id;
    event_type = NotificationEvent.completed;
    recipients = PartyType.agent ∷ PartyType.employee ∷ PartyType.md ∷ PartyType.accounts ∷ [];
    payload = ("documentHash", num final_hash) ∷ [];
  })
  return tt

-- What one completion works on: what it read before its database transaction.
pub record Completion : Type 0 where
  pub agreement : AgreementRow
  pub transaction : EsignTransactionRow
  pub party : PartyRow
  pub field : SigningParty
  pub der : List ℕ

unfoldable pub succeed_transition :
    Completion → List (String × Datum) → Patch → ℕ → TransitionRequest
succeed_transition c more patch document_hash = record {
  agreement_id = c.agreement.id;
  action = (signing_party c.field).succeed;
  actor_id = c.party.user_id;
  actor_roles = Role.system ∷ [];
  trigger = provider_callback;
  reason = none;
  audit_event = some (signing_party c.field).signed_event;
  audit_data = ("documentHash", num document_hash) ∷ ("transactionId", num c.transaction.id) ∷ more;
  ip_address = none;
  user_agent = none;
  patch = patch;
}

unfoldable pub advance_transition : Completion → WorkflowAction → TransitionRequest
advance_transition c action = record {
  agreement_id = c.agreement.id;
  action = action;
  actor_id = none;
  actor_roles = Role.system ∷ [];
  trigger = system;
  reason = none;
  audit_event = none;
  audit_data = [];
  ip_address = none;
  user_agent = none;
  patch = no_patch;
}

abbrev field_name : SigningParty → String
field_name agent_party = "AGENT"
field_name employee_party = "EMPLOYEE"
field_name md_party = "MD"

abbrev reference_data : Option Text → Datum
reference_data none = null
reference_data (some s) = txt s

abbrev reference_patch : Option Text → Option (Option Text)
reference_patch none = none
reference_patch (some s) = some (some s)

unfoldable pub notify_signed :
    Completion → Option (NotificationEvent × List PartyType) → M (Unit {0})
notify_signed c none = return tt
notify_signed c (some (event_type, recipients)) =
    enqueue (record {
      agreement_id = c.agreement.id;
      event_type = event_type;
      recipients = recipients;
      payload = [];
    })
    >> return tt

module _ (platform : Platform) where
  -- The signature and the move to the next signer commit together, or the agreement is completed.
  unfoldable pub advance : Completion → ℕ → Option WorkflowAction → M (Unit {0})
  advance c document_hash (some action) =
      transition_chain_in
        (succeed_transition c [] no_patch document_hash ∷ advance_transition c action ∷ [])
      >> notify_signed c (signing_party c.field).notify_on_signed
  advance c document_hash none = do
    execution_reference ← mint_execution_reference platform c.agreement
    now ← current_time
    draw ← fresh_id
    transition_in (
        succeed_transition c (("executionReference", reference_data execution_reference) ∷ [])
          (record no_patch {
            completed_at = some (some now);
            verification_token =
                some (some (generate_verification_token (platform.random_bytes draw)));
            execution_reference = reference_patch execution_reference;
            expires_at = some none;
          })
          document_hash)
    finalize c.agreement.id document_hash

  unfoldable pub apply_signature : Completion → M StoredVersion
  apply_signature c = do
    stored ← complete_signature platform (record {
      agreement_id = c.agreement.id;
      agreement_number = c.agreement.agreement_number;
      version = c.agreement.current_version;
      pending_file_key = c.transaction.pending_file_key;
      field = c.field;
      der = c.der;
      expected_digest = c.transaction.byte_range_digest;
      signatures_before = (signing_party c.field).signatures_before;
    })
    mark_signed c.transaction.id
    add_signature_event (record {
      agreement_id = c.agreement.id;
      party_id = c.party.id;
      agreement_version = c.agreement.current_version;
      event_type = SignatureEventType.signed;
      document_hash = stored.document_hash;
      esign_transaction_id = some c.transaction.id;
    })
    write (λ d. record d {
      agreement_parties =
          update_where (λ p. p.id == c.party.id) (λ p. record p { acted = true })
            d.agreement_parties;
    })
    advance c stored.document_hash (signing_party c.field).advance
    return stored

  -- A prior signature that stopped verifying stops the agreement and raises an alert.
  unfoldable pub handle_failure : Completion → DomainError → M (Unit {0})
  handle_failure c signature_integrity = do
    record_integrity_alert c.agreement.id
        (("transactionId", num c.transaction.id) ∷ ("field", str (field_name c.field)) ∷ [])
    fail_signature c.transaction.id "SIGNATURE_INTEGRITY_FAILURE"
  handle_failure c e = throw e

  unfoldable pub settle_signature : Completion → M (Unit {0})
  settle_signature c = catch (transaction (apply_signature c) >> return tt) (handle_failure c)

  abbrev pub is_signed : EsignStatus → Bool
  is_signed EsignStatus.signed = true
  is_signed _ = false

  abbrev pub failure_of : Option String → String
  failure_of none = "PROVIDER_REPORTED_NOT_SIGNED"
  failure_of (some code) = code

  unfoldable pub complete : Provider → (transaction_id : ℕ) → M (Unit {0})
  complete provider transaction_id = do
    t ← get_transaction transaction_id
    agreement ← get_agreement t.agreement_id
    row ← party_by_id t.party_id
    field ← or_throw (signing_party_of row.party_type) validation
    now ← current_time
    status ← from_result (provider.get_status now t.provider_transaction_id)
    branch (is_signed status.status)
        (from_result (provider.get_signature now t.provider_transaction_id) >>= λ der.
          settle_signature (record {
            agreement = agreement;
            transaction = t;
            party = row;
            field = field;
            der = der;
          }))
        (fail_signature transaction_id (failure_of status.failure_code))

-- ===== src/Signing/Ceremony.antt =====
-- The start of a signature (initiateSignature of api/src/signing/signing.service.ts) and its
-- failure (failSignature).
use onlineaggrement.Base.{
  ℕ, if◌then◌else◌, List, [], ◌∷◌, Option, none, some, String, insert, update_where, ◌==◌, ℕ_eq,
  String_eq, not, Bool, true, false, ltb, length,
}
use onlineaggrement.Errors.{stale_document}
use onlineaggrement.Database.{
  AgreementRow, FileKey, Datum, null, num, str, txt, flag, EsignTransactionRow, EsignStatus,
  SignatureEventRow, SignatureEventType, sign_initiated, user, provider_callback, AuditEvent,
}
use onlineaggrement.Service.{M, ◌>>=◌, ◌>>◌, return, throw_if, from_result, write, transaction}
use onlineaggrement.Workflow.States.{Role}
use onlineaggrement.Workflow.Rules.{SigningParty}
use onlineaggrement.Workflow.Service.{
  TransitionRequest, no_patch, get_agreement, transition, transition_in,
}
use onlineaggrement.Documents.{Platform, party_type, current_version, begin_signature}
use onlineaggrement.Esign.{Provider, create_transaction, get_transaction, mark_failed}
use onlineaggrement.Signing.Parties.{
  signing_party, party_at, Principal, assert_actor_is_party, party, party_by_id,
}

pub record ActionContext : Type 0 where
  pub ip_address : Option String
  pub user_agent : Option String

pub record InitiateParams : Type 0 where
  pub agreement_id : ℕ
  pub party : SigningParty
  pub presented_document_hash : ℕ
  pub actor : Principal

-- The values that a test of the language takes for true.
abbrev is_truthy : Datum → Bool
is_truthy null = false
is_truthy (num n) = ltb 0 n
is_truthy (str s) = not (s == "")
is_truthy (txt t) = ltb 0 (length t)
is_truthy (flag b) = b
is_truthy _ = true

-- Where the agreement is executed, if its form says so.
abbrev pub location_of : List (String × Datum) → Datum
location_of [] = str "India"
location_of (entry ∷ form) =
    if entry.0 == "placeOfExecution"
    then if is_truthy entry.1 then entry.1 else str "India"
    else location_of form

unfoldable pub add_signature_event : SignatureEventRow → M (Unit {0})
add_signature_event e = write λ d. record d { signature_events = insert e d.signature_events }

unfoldable pub park : ℕ → FileKey → M (Unit {0})
park transaction_id key = write λ d. record d {
  esign_transactions =
      update_where (λ t. t.id == transaction_id) (λ t. record t { pending_file_key = some key })
        d.esign_transactions;
}

unfoldable pub initiate_transition :
    InitiateParams → ActionContext → AgreementRow → ℕ → TransitionRequest
initiate_transition params ctx agreement document_hash = record {
  agreement_id = agreement.id;
  action = (signing_party params.party).initiate;
  actor_id = some params.actor.user_id;
  actor_roles = params.actor.roles;
  trigger = user;
  reason = none;
  audit_event = some (signing_party params.party).initiated_event;
  audit_data = ("documentHash", num document_hash) ∷ [];
  ip_address = ctx.ip_address;
  user_agent = ctx.user_agent;
  patch = no_patch;
}

-- Each step commits by itself: the state changes first, and the document and the transaction with
-- the provider follow.
unfoldable pub initiate_signature : Platform → Provider → InitiateParams → ActionContext → M ℕ
initiate_signature platform provider params ctx = do
  agreement ← get_agreement params.agreement_id
  version ← current_version agreement.id agreement.current_version
  throw_if (not (version.document_hash == params.presented_document_hash))
      (stale_document params.presented_document_hash version.document_hash)
  row ← party agreement.id (party_type params.party)
  from_result (assert_actor_is_party params.actor row)
  transition (initiate_transition params ctx agreement version.document_hash)
  prepared ←
      begin_signature platform agreement.agreement_number agreement.current_version version.file_key
        params.party
        (record {
          signer_name = row.name;
          reason = (signing_party params.party).reason;
          reason_of = agreement.agreement_number;
          location = location_of agreement.form;
        })
  opened ← create_transaction provider (record {
    agreement_id = agreement.id;
    party_id = row.id;
    agreement_version = agreement.current_version;
    byte_range_digest = prepared.byte_range_digest;
    document_hash = version.document_hash;
  })
  add_signature_event (record {
    agreement_id = agreement.id;
    party_id = row.id;
    agreement_version = agreement.current_version;
    event_type = sign_initiated;
    document_hash = version.document_hash;
    esign_transaction_id = some opened.id;
  })
  park opened.id prepared.pending_file_key
  return opened.id

unfoldable pub fail_transition :
    AgreementRow → EsignTransactionRow → String → SigningParty → TransitionRequest
fail_transition agreement t failure_code signer = record {
  agreement_id = agreement.id;
  action = (signing_party signer).fail;
  actor_id = none;
  actor_roles = Role.system ∷ [];
  trigger = provider_callback;
  reason = none;
  audit_event = some AuditEvent.signature_failed;
  audit_data =
      ("transactionId", num t.id)
      ∷ ("failureCode", str failure_code)
      ∷ ("attemptNo", num t.attempt_no)
      ∷ [];
  ip_address = none;
  user_agent = none;
  patch = no_patch;
}

-- The agreement is moved only where it is in a signing state.
unfoldable pub fail_agreement :
    AgreementRow → EsignTransactionRow → String → Option SigningParty → M (Unit {0})
fail_agreement agreement t failure_code none = return tt
fail_agreement agreement t failure_code (some signer) =
    transition_in (fail_transition agreement t failure_code signer) >> return tt

unfoldable pub fail_in :
    AgreementRow → EsignTransactionRow → (party_id : ℕ) (failure_code : String) → M (Unit {0})
fail_in agreement t party_id failure_code = do
  mark_failed t.id failure_code EsignStatus.failed
  add_signature_event (record {
    agreement_id = agreement.id;
    party_id = party_id;
    agreement_version = agreement.current_version;
    event_type = SignatureEventType.failed;
    document_hash = t.document_hash;
    esign_transaction_id = some t.id;
  })
  fail_agreement agreement t failure_code (party_at agreement.status)

unfoldable pub fail_signature : (transaction_id : ℕ) (failure_code : String) → M (Unit {0})
fail_signature transaction_id failure_code = do
  t ← get_transaction transaction_id
  agreement ← get_agreement t.agreement_id
  row ← party_by_id t.party_id
  transaction (fail_in agreement t row.id failure_code)

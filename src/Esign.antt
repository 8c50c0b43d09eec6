-- ===== src/Esign.antt =====
-- The signing transactions and the ledger of callbacks (api/src/esign/esign.service.ts) with the
-- unique indexes of api/migrations/006_identity_and_esign.ts. The provider behind
-- api/src/esign/provider.interface.ts is a parameter.
pub mod Ledger
pub mod Replay
mod Examples
use onlineaggrement.Base.{
  ℕ, suc, ◌+◌, ◌*◌, ◌-◌, max, Bool, true, false, not, ◌&&◌, ◌||◌, List, [], ◌∷◌, ◌++◌, Option, none,
  some, String, any, select, first, update_where, insert, ltb, ◌==◌, ℕ_eq, String_eq, if◌then◌else◌,
}
use onlineaggrement.Errors.{DomainError, not_found, conflict, Result}
use onlineaggrement.Database.{
  Db, World, FileKey, EsignTransactionRow, EsignStatus, initiated, pending_signer, signed, failed,
  expired, cancelled, CallbackEventRow, CallbackOutcome, applied, duplicate, rejected_signature,
  unmatched, stale, Datum, signature_integrity_alert,
}
use onlineaggrement.Service.{
  M, ◌>>=◌, ◌>>◌, return, throw_if, or_throw, from_result, branch, query, write, current_time,
  fresh_id,
}
use onlineaggrement.Audit.{audit_record}

pub record ProviderStatus : Type 0 where
  pub status : EsignStatus
  pub failure_code : Option String

pub record VerifiedCallback : Type 0 where
  pub provider_event_id : String
  pub provider_transaction_id : String
  pub status : EsignStatus
  pub failure_code : Option String

pub record InitiateRequest : Type 0 where
  pub agreement_id : ℕ
  pub party_id : ℕ
  pub byte_range_digest : Option ℕ

-- The external service: what it answers at a time. It can throw.
pub record Provider : Type 0 where
  pub name : String
  pub is_hash_mode : Bool
  pub initiate_signing : ℕ → InitiateRequest → Result String
  pub get_status : ℕ → String → Result ProviderStatus
  pub get_signature : ℕ → String → Result (List ℕ)
  -- `none` where the signature over the raw body does not hold.
  pub verify_callback : ℕ → List ℕ → Option VerifiedCallback

abbrev pub is_open : EsignStatus → Bool
is_open initiated = true
is_open pending_signer = true
is_open _ = false

pub record CreateParams : Type 0 where
  pub agreement_id : ℕ
  pub party_id : ℕ
  pub agreement_version : ℕ
  pub byte_range_digest : ℕ
  pub document_hash : ℕ

abbrev is_attempt : CreateParams → EsignTransactionRow → Bool
is_attempt params t =
    t.agreement_id == params.agreement_id
    && t.party_id == params.party_id
    && t.agreement_version == params.agreement_version

-- The greatest attempt number, and 0 where there is no attempt.
abbrev pub last_attempt : List EsignTransactionRow → ℕ
last_attempt [] = 0
last_attempt (t ∷ rows) = max t.attempt_no (last_attempt rows)

-- What `uq_esign_open_per_party` and the unique pair of provider and its identifier keep apart.
unfoldable pub clashes : EsignTransactionRow → EsignTransactionRow → Bool
clashes a b =
    is_open a.status
      && is_open b.status
      && a.agreement_id == b.agreement_id
      && a.party_id == b.party_id
      && a.agreement_version == b.agreement_version
    || a.provider == b.provider && a.provider_transaction_id == b.provider_transaction_id

unfoldable pub new_transaction :
    CreateParams → (id now attempt : ℕ) → (provider provider_id : String) → EsignTransactionRow
new_transaction params id now attempt provider provider_id = record {
  id = id;
  agreement_id = params.agreement_id;
  party_id = params.party_id;
  agreement_version = params.agreement_version;
  provider = provider;
  provider_transaction_id = provider_id;
  byte_range_digest = some params.byte_range_digest;
  document_hash = params.document_hash;
  pending_file_key = none;
  status = pending_signer;
  attempt_no = attempt;
  failure_code = none;
  initiated_at = now;
  completed_at = none;
}

module _ (provider : Provider) where
  -- The provider is called before the row is written, and a violation of an index is a conflict.
  unfoldable pub create_transaction : CreateParams → M EsignTransactionRow
  create_transaction params = do
    previous ← query (λ d. last_attempt (select (is_attempt params) d.esign_transactions))
    now ← current_time
    provider_id ← from_result (
        provider.initiate_signing now (record {
          agreement_id = params.agreement_id;
          party_id = params.party_id;
          byte_range_digest = if provider.is_hash_mode then some params.byte_range_digest else none;
        }))
    id ← fresh_id
    let row = new_transaction params id now (previous + 1) provider.name provider_id
    taken ← query (λ d. any (λ t. clashes t row) d.esign_transactions)
    throw_if taken (conflict (some "FR-014"))
    write (λ d. record d { esign_transactions = insert row d.esign_transactions })
    return row

unfoldable pub get_transaction : ℕ → M EsignTransactionRow
get_transaction id = query (λ d. first (λ t. t.id == id) d.esign_transactions) >>= λ row.
    or_throw row (not_found "eSign transaction")

unfoldable pub mark_signed : ℕ → M (Unit {0})
mark_signed transaction_id = do
  now ← current_time
  write λ d. record d {
    esign_transactions =
        update_where (λ t. t.id == transaction_id)
          (λ t. record t { status = signed; completed_at = some now }) d.esign_transactions;
  }

unfoldable pub mark_failed : ℕ → String → EsignStatus → M (Unit {0})
mark_failed transaction_id failure_code status = do
  now ← current_time
  write λ d. record d {
    esign_transactions =
        update_where (λ t. t.id == transaction_id)
          (λ t. record t {
            status = status;
            failure_code = some failure_code;
            completed_at = some now;
          })
          d.esign_transactions;
  }

-- In flight for longer than the given number of seconds.
unfoldable pub open_transactions : ℕ → M (List EsignTransactionRow)
open_transactions older_than_seconds = do
  now ← current_time
  query λ d.
      select (λ t. is_open t.status && ltb (t.initiated_at + older_than_seconds * 1000) now)
        d.esign_transactions

unfoldable pub record_integrity_alert : ℕ → List (String × Datum) → M (Unit {0})
record_integrity_alert agreement_id details =
    audit_record signature_integrity_alert details (record {
      agreement_id = some agreement_id;
      agreement_version = none;
      actor_id = none;
      ip_address = none;
      user_agent = none;
    })

pub record CallbackResult : Type 0 where
  pub outcome : CallbackOutcome
  pub transaction : Option EsignTransactionRow
  pub event : Option VerifiedCallback

abbrev pub answer :
    CallbackOutcome → Option EsignTransactionRow → Option VerifiedCallback → CallbackResult
answer outcome transaction event = record {
  outcome = outcome;
  transaction = transaction;
  event = event;
}

abbrev pub is_event : String → String → CallbackEventRow → Bool
is_event provider event_id e = e.provider == provider && e.provider_event_id == event_id

unfoldable pub event_row : String → String → Bool → Option CallbackOutcome → CallbackEventRow
event_row provider event_id valid outcome = record {
  provider = provider;
  provider_event_id = event_id;
  signature_valid = valid;
  esign_transaction_id = none;
  outcome = outcome;
}

unfoldable pub add_event : CallbackEventRow → M (Unit {0})
add_event e = write λ d. record d { esign_callback_events = insert e d.esign_callback_events }

unfoldable pub finish_event : String → String → Option ℕ → CallbackOutcome → M (Unit {0})
finish_event event_id provider transaction_id outcome = write λ d. record d {
  esign_callback_events =
      update_where (is_event provider event_id)
        (λ e. record e { esign_transaction_id = transaction_id; outcome = some outcome })
        d.esign_callback_events;
}

unfoldable pub settle : String → VerifiedCallback → Option EsignTransactionRow → M CallbackResult
settle provider event none =
    finish_event event.provider_event_id provider none unmatched
    >> return (answer unmatched none (some event))
settle provider event (some t) =
    branch (is_open t.status)
      (finish_event event.provider_event_id provider (some t.id) applied
        >> return (answer applied (some t) (some event)))
      (finish_event event.provider_event_id provider (some t.id) stale
        >> return (answer stale (some t) (some event)))

-- The insertion into the ledger claims the event: a second one loses to the unique index.
unfoldable pub claim : String → VerifiedCallback → M CallbackResult
claim provider event = do
  seen ← query (λ d. any (is_event provider event.provider_event_id) d.esign_callback_events)
  branch seen (return (answer duplicate none (some event))) do
    add_event (event_row provider event.provider_event_id true none)
    transaction ← query (λ d.
        first
          (λ t.
            t.provider == provider && t.provider_transaction_id == event.provider_transaction_id)
          d.esign_transactions)
    settle provider event transaction

-- An event that is not authentic is recorded under an identifier of its own.
unfoldable pub ingest_verified : String → String → Option VerifiedCallback → M CallbackResult
ingest_verified provider unverified_id none = do
  add_event (event_row provider unverified_id false (some rejected_signature))
  return (answer rejected_signature none none)
ingest_verified provider unverified_id (some event) = claim provider event

unfoldable pub ingest_callback : Provider → String → List ℕ → M CallbackResult
ingest_callback provider unverified_id raw_body = do
  now ← current_time
  ingest_verified provider.name unverified_id (provider.verify_callback now raw_body)

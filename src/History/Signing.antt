-- ===== src/History/Signing.antt =====
-- The history, for the signing services (api/src/signing/signing.service.ts,
-- api/src/esign/esign.service.ts and api/src/stamps/stamps.service.ts).
use onlineaggrement.Base.{ℕ, refl, List, Option, none, some, String, Text}
use onlineaggrement.Errors.{
  DomainError, signature_integrity, not_found, forbidden, invalid_transition, conflict,
  stale_document, validation, other_error,
}
use onlineaggrement.Database.{
  FileKey, AgreementRow, PartyType, EsignTransactionRow, EsignStatus, StampAllocationRow,
  NotificationEvent,
}
use onlineaggrement.Service.Keeps.{Keeps}
use onlineaggrement.Workflow.States.{WorkflowAction}
use onlineaggrement.Workflow.Rules.{SigningParty}
use onlineaggrement.Documents.{Platform}
use onlineaggrement.Stamps.{set_status, use_stamp, mark_used}
use onlineaggrement.Esign.{
  Provider, CreateParams, create_transaction, get_transaction, mark_signed, mark_failed,
  record_integrity_alert,
}
use onlineaggrement.Signing.Parties.{party, party_by_id}
use onlineaggrement.Signing.Reference.{
  ensure_sequence, next_execution_reference, mint_for, keep_or_mint, mint_execution_reference,
}
use onlineaggrement.Signing.Ceremony.{
  ActionContext, InitiateParams, park, initiate_signature, fail_agreement, fail_in, fail_signature,
}
use onlineaggrement.Signing.Completion.{
  finalize, Completion, notify_signed, advance, apply_signature, handle_failure, settle_signature,
  complete,
}
use onlineaggrement.History.{Follows}
use onlineaggrement.History.Steps.{
  steps, write-apart, Follows-return, Follows-throw, get_agreement-Keeps,
}
use onlineaggrement.History.Documents.{
  begin_signature-Keeps, complete_signature-Keeps, current_version-Keeps, enqueue-Keeps,
  add_signature_event-Keeps,
}

use_stamp-Keeps :
    (i : ℕ) (actor : Option ℕ) (a : Option StampAllocationRow) → Keeps Follows (use_stamp i actor a)
unfolding use_stamp set_status
use_stamp-Keeps i actor none = Follows-return tt
use_stamp-Keeps i actor (some a) = search (steps, write-apart) depth 40

mark_used-Keeps : (i : ℕ) (actor : Option ℕ) → Keeps Follows (mark_used i actor)
unfolding mark_used
mark_used-Keeps i actor = search (steps, use_stamp-Keeps)

get_transaction-Keeps : (i : ℕ) → Keeps Follows (get_transaction i)
unfolding get_transaction
get_transaction-Keeps i = search steps

mark_signed-Keeps : (i : ℕ) → Keeps Follows (mark_signed i)
unfolding mark_signed
mark_signed-Keeps i = search (steps, write-apart) depth 40

mark_failed-Keeps : (i : ℕ) (code : String) (s : EsignStatus) → Keeps Follows (mark_failed i code s)
unfolding mark_failed
mark_failed-Keeps i code s = search (steps, write-apart) depth 40

create_transaction-Keeps :
    (provider : Provider) (params : CreateParams)
    → Keeps Follows (create_transaction provider params)
unfolding create_transaction
create_transaction-Keeps provider params = search (steps, write-apart) depth 40

pub party-Keeps : (i : ℕ) (kind : PartyType) → Keeps Follows (party i kind)
unfolding party
party-Keeps i kind = search steps

party_by_id-Keeps : (i : ℕ) → Keeps Follows (party_by_id i)
unfolding party_by_id
party_by_id-Keeps i = search steps

park-Keeps : (i : ℕ) (key : FileKey) → Keeps Follows (park i key)
unfolding park
park-Keeps i key = write-apart _ λ d. (refl, refl, refl, refl, refl, refl)

-- Whatever an initiation of a signature does, it does not undo the history.
pub initiate_signature-Keeps :
    (platform : Platform) (provider : Provider) (params : InitiateParams) (ctx : ActionContext)
    → Keeps Follows (initiate_signature platform provider params ctx)
unfolding initiate_signature
initiate_signature-Keeps platform provider params ctx =
    search
      (
        steps, get_agreement-Keeps, current_version-Keeps, party-Keeps, begin_signature-Keeps,
        create_transaction-Keeps, add_signature_event-Keeps, park-Keeps,
      )
      depth 60

fail_agreement-Keeps :
    (a : AgreementRow) (t : EsignTransactionRow) (code : String) (signer : Option SigningParty)
    → Keeps Follows (fail_agreement a t code signer)
unfolding fail_agreement
fail_agreement-Keeps a t code none = Follows-return tt
fail_agreement-Keeps a t code (some signer) = search steps

fail_in-Keeps :
    (a : AgreementRow) (t : EsignTransactionRow) (party_id : ℕ) (code : String)
    → Keeps Follows (fail_in a t party_id code)
unfolding fail_in
fail_in-Keeps a t party_id code =
    search (steps, mark_failed-Keeps, add_signature_event-Keeps, fail_agreement-Keeps) depth 40

pub fail_signature-Keeps : (i : ℕ) (code : String) → Keeps Follows (fail_signature i code)
unfolding fail_signature
fail_signature-Keeps i code =
    search (steps, get_transaction-Keeps, get_agreement-Keeps, party_by_id-Keeps, fail_in-Keeps)
      depth 40

finalize-Keeps : (i hash : ℕ) → Keeps Follows (finalize i hash)
unfolding finalize
finalize-Keeps i hash = search (steps, mark_used-Keeps, enqueue-Keeps) depth 40

notify_signed-Keeps :
    (c : Completion) (n : Option (NotificationEvent × List PartyType))
    → Keeps Follows (notify_signed c n)
unfolding notify_signed
notify_signed-Keeps c none = Follows-return tt
notify_signed-Keeps c (some (event, recipients)) = search (steps, enqueue-Keeps)

next_execution_reference-Keeps :
    (bank agent fy : Text) → Keeps Follows (next_execution_reference bank agent fy)
unfolding next_execution_reference ensure_sequence
next_execution_reference-Keeps bank agent fy = search (steps, write-apart) depth 40

module _ (platform : Platform) where
  mint_for-Keeps :
      (a : AgreementRow) (code : Option Text) → Keeps Follows (mint_for platform a code)
  unfolding mint_for
  mint_for-Keeps a none = Follows-return none
  mint_for-Keeps a (some code) = search (steps, next_execution_reference-Keeps) depth 40

  keep_or_mint-Keeps :
      (a : AgreementRow) (kept : Option Text) → Keeps Follows (keep_or_mint platform a kept)
  unfolding keep_or_mint
  keep_or_mint-Keeps a none = search (steps, mint_for-Keeps)
  keep_or_mint-Keeps a (some kept) = Follows-return (some kept)

  mint_execution_reference-Keeps :
      (a : AgreementRow) → Keeps Follows (mint_execution_reference platform a)
  unfolding mint_execution_reference
  mint_execution_reference-Keeps a = search (steps, keep_or_mint-Keeps)

  advance-Keeps :
      (c : Completion) (hash : ℕ) (action : Option WorkflowAction)
      → Keeps Follows (advance platform c hash action)
  unfolding advance
  advance-Keeps c hash none =
      search (steps, mint_execution_reference-Keeps, finalize-Keeps) depth 40
  advance-Keeps c hash (some action) = search (steps, notify_signed-Keeps) depth 40

  apply_signature-Keeps : (c : Completion) → Keeps Follows (apply_signature platform c)
  unfolding apply_signature
  apply_signature-Keeps c =
      search
        (
          steps, complete_signature-Keeps, mark_signed-Keeps, add_signature_event-Keeps,
          write-apart, advance-Keeps,
        )
        depth 60

  handle_failure-Keeps :
      (c : Completion) (e : DomainError) → Keeps Follows (handle_failure platform c e)
  unfolding handle_failure record_integrity_alert
  handle_failure-Keeps c signature_integrity = search (steps, fail_signature-Keeps)
  handle_failure-Keeps c (not_found what) = Follows-throw _
  handle_failure-Keeps c (forbidden rule) = Follows-throw _
  handle_failure-Keeps c (invalid_transition src dst rule) = Follows-throw _
  handle_failure-Keeps c (conflict rule) = Follows-throw _
  handle_failure-Keeps c (stale_document a b) = Follows-throw _
  handle_failure-Keeps c validation = Follows-throw _
  handle_failure-Keeps c (other_error what) = Follows-throw _

  settle_signature-Keeps : (c : Completion) → Keeps Follows (settle_signature platform c)
  unfolding settle_signature
  settle_signature-Keeps c = search (steps, apply_signature-Keeps, handle_failure-Keeps) depth 40

  module _ (provider : Provider) where
    pub complete-Keeps : (i : ℕ) → Keeps Follows (complete platform provider i)
    unfolding complete
    complete-Keeps i =
        search
          (
            steps, get_transaction-Keeps, get_agreement-Keeps, party_by_id-Keeps,
            settle_signature-Keeps, fail_signature-Keeps,
          )
          depth 60

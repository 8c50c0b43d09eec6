-- ===== src/History/Recovery.antt =====
-- The history, for rejection, callbacks, reconciliation, correction and the expiry sweep
-- (api/src/signing, api/src/jobs/scheduled-jobs.service.ts, api/src/workflow/workflow.service.ts).
use onlineaggrement.Base.{ℕ, ◌+◌, refl, List, [], ◌∷◌, Option, none, some, String}
use onlineaggrement.Database.{
  AgreementRow, EsignTransactionRow, EsignStatus, initiated, pending_signer, signed, failed,
  expired, cancelled,
}
use onlineaggrement.Service.{write}
use onlineaggrement.Service.Keeps.{Keeps}
use onlineaggrement.Documents.{Platform}
use onlineaggrement.Esign.{Provider, VerifiedCallback, open_transactions, ingest_callback}
use onlineaggrement.Esign.Ledger.{ingest_callback-done, ledger_of, verified}
use onlineaggrement.Stamps.{AllocateParams, allocate, allocate_in, insert_allocation, set_status}
use onlineaggrement.Workflow.Corrections.{CorrectRequest, correct_agreement}
use onlineaggrement.Workflow.Service.{lock_agreement}
use onlineaggrement.Workflow.Sweep.{
  expire_overdue_agreements, expire_each, expire_one, find_expired,
}
use onlineaggrement.Signing.Ceremony.{ActionContext}
use onlineaggrement.Signing.Rejection.{RejectParams, reject_in, reject_agreement}
use onlineaggrement.Signing.Recovery.{
  fail_where, settle_status, apply_outcome, reconcile_one, reconcile_each, reconcile,
}
use onlineaggrement.History.{Follows}
use onlineaggrement.History.Steps.{
  steps, write-apart, Follows->>=, Follows-return, Follows-catch, get_agreement-Keeps,
}
use onlineaggrement.History.Documents.{
  current_version-Keeps, enqueue-Keeps, add_signature_event-Keeps,
}
use onlineaggrement.History.Signing.{party-Keeps, fail_signature-Keeps, complete-Keeps}

reject_in-Keeps :
    (params : RejectParams) (ctx : ActionContext) (a : AgreementRow) (i : ℕ)
    → Keeps Follows (reject_in params ctx a i)
unfolding reject_in
reject_in-Keeps params ctx a i =
    search (steps, current_version-Keeps, add_signature_event-Keeps, enqueue-Keeps) depth 40

pub reject_agreement-Keeps :
    (params : RejectParams) (ctx : ActionContext) → Keeps Follows (reject_agreement params ctx)
unfolding reject_agreement
reject_agreement-Keeps params ctx =
    search (steps, get_agreement-Keeps, party-Keeps, reject_in-Keeps) depth 40

fail_where-Keeps : (i : ℕ) (code name : Option String) → Keeps Follows (fail_where i code name)
unfolding fail_where
fail_where-Keeps i code none = Follows-return 0
fail_where-Keeps i code (some name) = search (steps, fail_signature-Keeps)

open_transactions-Keeps : (seconds : ℕ) → Keeps Follows (open_transactions seconds)
unfolding open_transactions
open_transactions-Keeps seconds = search steps

module _ (platform : Platform) (provider : Provider) where
  settle_status-Keeps :
      (i : ℕ) (s : EsignStatus) (code : Option String)
      → Keeps Follows (settle_status platform provider i s code)
  unfolding settle_status
  settle_status-Keeps i signed code = search (steps, complete-Keeps)
  settle_status-Keeps i initiated code = fail_where-Keeps i code _
  settle_status-Keeps i pending_signer code = fail_where-Keeps i code _
  settle_status-Keeps i failed code = fail_where-Keeps i code _
  settle_status-Keeps i expired code = fail_where-Keeps i code _
  settle_status-Keeps i cancelled code = fail_where-Keeps i code _

  pub apply_outcome-Keeps :
      (i : ℕ) (event : VerifiedCallback) → Keeps Follows (apply_outcome platform provider i event)
  unfolding apply_outcome
  apply_outcome-Keeps i event = search (steps, settle_status-Keeps) depth 40

  reconcile_one-Keeps :
      (t : EsignTransactionRow) → Keeps Follows (reconcile_one platform provider t)
  unfolding reconcile_one
  reconcile_one-Keeps t = search (steps, settle_status-Keeps) depth 40

  reconcile_each-Keeps :
      (count : ℕ) (rows : List EsignTransactionRow)
      → Keeps Follows (reconcile_each platform provider count rows)
  unfolding reconcile_each
  reconcile_each-Keeps count [] = Follows-return count
  reconcile_each-Keeps count (t ∷ rows) =
      Follows->>=
        (Follows-catch (Follows->>= (reconcile_one-Keeps t) (λ n. Follows-return (some n)))
          (λ e. Follows-return none))
        (elim [ none ↦ Follows-return count | some n ↦ reconcile_each-Keeps (count + n) rows ])

  pub reconcile-Keeps : Keeps Follows (reconcile platform provider)
  unfolding reconcile
  reconcile-Keeps = search (steps, open_transactions-Keeps, reconcile_each-Keeps)

lock_agreement-Keeps : (i : ℕ) → Keeps Follows (lock_agreement i)
unfolding lock_agreement
lock_agreement-Keeps i = search steps

pub correct_agreement-Keeps : (req : CorrectRequest) → Keeps Follows (correct_agreement req)
unfolding correct_agreement
correct_agreement-Keeps req = search (steps, lock_agreement-Keeps, write-apart) depth 40

pub allocate-Keeps : (params : AllocateParams) → Keeps Follows (allocate params)
unfolding allocate allocate_in insert_allocation set_status
allocate-Keeps params = search (steps, write-apart) depth 60

pub ingest_callback-Keeps :
    (provider : Provider) (id : String) (body : List ℕ)
    → Keeps Follows (ingest_callback provider id body)
unfolding write
ingest_callback-Keeps provider id body = record {
  kept = λ w. rw (ingest_callback-done provider id body w) (
      (write-apart
          (λ d. record d {
            esign_callback_events = ledger_of provider.name id (verified provider id body w) w.db;
          })
          (λ d. (refl, refl, refl, refl, refl, refl))).kept
        w);
}

expire_one-Keeps : (n : ℕ) (a : AgreementRow) → Keeps Follows (expire_one n a)
unfolding expire_one
expire_one-Keeps n a = search steps

expire_each-Keeps : (n : ℕ) (rows : List AgreementRow) → Keeps Follows (expire_each n rows)
unfolding expire_each
expire_each-Keeps n [] = Follows-return n
expire_each-Keeps n (a ∷ rows) = Follows->>= (expire_one-Keeps n a) (λ m. expire_each-Keeps m rows)

pub expire_overdue_agreements-Keeps : Keeps Follows expire_overdue_agreements
unfolding expire_overdue_agreements find_expired
expire_overdue_agreements-Keeps = search (steps, expire_each-Keeps) depth 40

-- ===== src/Signing/Recovery.antt =====
-- What follows a callback (callback and applyOutcome of api/src/signing/signing.controller.ts), and
-- the reconciliation of the transactions of which no callback told
-- (reconcileSigningTransactions of api/src/jobs/scheduled-jobs.service.ts).
use onlineaggrement.Base.{ℕ, ◌+◌, List, [], ◌∷◌, Option, none, some, String}
use onlineaggrement.Database.{EsignTransactionRow, EsignStatus, signed, failed, expired, cancelled}
use onlineaggrement.Service.{M, ◌>>=◌, ◌>>◌, return, from_result, current_time, catch}
use onlineaggrement.Documents.{Platform}
use onlineaggrement.Esign.{Provider, VerifiedCallback, open_transactions}
use onlineaggrement.Signing.Ceremony.{fail_signature}
use onlineaggrement.Signing.Completion.{complete}

-- The name of a status, where it stands for a failure.
abbrev pub failure_status : EsignStatus → Option String
failure_status failed = some "FAILED"
failure_status expired = some "EXPIRED"
failure_status cancelled = some "CANCELLED"
failure_status _ = none

abbrev code_or : Option String → String → String
code_or none name = name
code_or (some code) name = code

unfoldable pub fail_where : ℕ → Option String → Option String → M ℕ
fail_where transaction_id failure_code none = return 0
fail_where transaction_id failure_code (some name) =
    fail_signature transaction_id (code_or failure_code name) >> return 1

module _ (platform : Platform) (provider : Provider) where
  -- The number of transactions that were settled: none or one.
  unfoldable pub settle_status : ℕ → EsignStatus → Option String → M ℕ
  settle_status transaction_id signed failure_code =
      complete platform provider transaction_id >> return 1
  settle_status transaction_id status failure_code =
      fail_where transaction_id failure_code (failure_status status)

  -- An error is logged, and nothing else.
  unfoldable pub apply_outcome : ℕ → VerifiedCallback → M (Unit {0})
  apply_outcome transaction_id event =
      catch (settle_status transaction_id event.status event.failure_code >> return tt)
        (λ e. return tt)

  unfoldable pub reconcile_one : EsignTransactionRow → M ℕ
  reconcile_one t = do
    now ← current_time
    status ← from_result (provider.get_status now t.provider_transaction_id)
    settle_status t.id status.status status.failure_code

  -- The count so far survives an error, which ends the loop.
  unfoldable pub reconcile_each : ℕ → List EsignTransactionRow → M ℕ
  reconcile_each count [] = return count
  reconcile_each count (t ∷ rows) =
      catch (reconcile_one t >>= λ n. return (some n)) (λ e. return none) >>= λ settled.
      elim settled [ none ↦ return count | some n ↦ reconcile_each (count + n) rows ]

  unfoldable pub reconcile : M ℕ
  reconcile = open_transactions 60 >>= λ rows. reconcile_each 0 rows

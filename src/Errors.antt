-- ===== src/Errors.antt =====
-- The domain errors of api/src/common/errors/domain.errors.ts, without their message texts, and
-- the results of a computation that can throw.
use onlineaggrement.Base.{◌≡◌, refl, ◌⊎◌, inl, inr, ℕ, Option, none, some, String}
use onlineaggrement.Workflow.States.{AgreementState}

pub data DomainError : Type 0 where
  not_found : (what : String) → DomainError
  forbidden : (rule : Option String) → DomainError
  invalid_transition : (src dst : AgreementState) (rule : String) → DomainError
  conflict : (rule : Option String) → DomainError
  stale_document : (expected actual : ℕ) → DomainError
  signature_integrity : DomainError
  validation : DomainError
  -- What is thrown and is no `DomainError`: the runtime's, the database's and the libraries'.
  other_error : (what : String) → DomainError

unfoldable pub error_code : DomainError → String
error_code (not_found _) = "NOT_FOUND"
error_code (forbidden _) = "FORBIDDEN"
error_code (invalid_transition _ _ _) = "INVALID_TRANSITION"
error_code (conflict _) = "CONFLICT"
error_code (stale_document _ _) = "STALE_DOCUMENT"
error_code signature_integrity = "SIGNATURE_INTEGRITY"
error_code validation = "VALIDATION_FAILED"
error_code (other_error _) = "INTERNAL_ERROR"

unfoldable pub http_status : DomainError → ℕ
http_status (not_found _) = 404
http_status (forbidden _) = 403
http_status (invalid_transition _ _ _) = 409
http_status (conflict _) = 409
http_status (stale_document _ _) = 409
http_status signature_integrity = 500
http_status validation = 422
http_status (other_error _) = 500

unfoldable pub error_rule : DomainError → Option String
error_rule (forbidden rule) = rule
error_rule (invalid_transition _ _ rule) = some rule
error_rule (conflict rule) = rule
error_rule (stale_document _ _) = some "FR-027"
error_rule signature_integrity = some "SRS-8.3"
error_rule _ = none

pub data Result (A : Type 0) : Type 0 where
  ok : A → Result A
  err : DomainError → Result A

pub Result-cases :
    {A : Type 0} (r : Result A) → ((a : A) × (r ≡ ok a)) ⊎ ((e : DomainError) × (r ≡ err e))
Result-cases (ok a) = inl (a, refl)
Result-cases (err e) = inr (e, refl)

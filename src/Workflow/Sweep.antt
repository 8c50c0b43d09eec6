-- ===== src/Workflow/Sweep.antt =====
-- The expiry sweep: findExpired of api/src/workflow/workflow.service.ts and
-- expireOverdueAgreements of api/src/jobs/scheduled-jobs.service.ts.
pub mod Steps
pub mod Laws
use onlineaggrement.Base.{
  ℕ, suc, Bool, true, false, not, ◌&&◌, List, [], ◌∷◌, Option, none, some, String, select, includes,
  ltb,
}
use onlineaggrement.Database.{
  Db, AgreementRow, Datum, null, num, status, scheduler, agreement_expired,
}
use onlineaggrement.Service.{M, ◌>>=◌, return, query, current_time, catch}
use onlineaggrement.Workflow.States.{
  AgreementState_eq, completed, cancelled, rejected, expired, expire, system,
}
use onlineaggrement.Workflow.Service.{no_patch, TransitionRequest, transition}

abbrev is_past : ℕ → Option ℕ → Bool
is_past now none = false
is_past now (some deadline) = ltb deadline now

unfoldable pub is_overdue : ℕ → AgreementRow → Bool
is_overdue now r =
    is_past now r.expires_at
    && not (includes (completed ∷ cancelled ∷ rejected ∷ expired ∷ []) r.status)

unfoldable pub find_expired : ℕ → M (List AgreementRow)
find_expired now = query λ d. select (is_overdue now) d.agreements

abbrev date_data : Option ℕ → Datum
date_data none = null
date_data (some date) = num date

unfoldable pub expire_request : AgreementRow → TransitionRequest
expire_request agreement = record {
  agreement_id = agreement.id;
  action = expire;
  actor_id = none;
  actor_roles = system ∷ [];
  trigger = scheduler;
  reason = none;
  audit_event = some agreement_expired;
  audit_data =
      ("expiredFrom", status agreement.status) ∷ ("deadline", date_data agreement.expires_at) ∷ [];
  ip_address = none;
  user_agent = none;
  patch = no_patch;
}

-- A transition that is refused is logged and passed over.
unfoldable pub expire_one : ℕ → AgreementRow → M ℕ
expire_one expired_count agreement =
    catch (transition (expire_request agreement) >>= λ _. return (suc expired_count))
      (λ _. return expired_count)

unfoldable pub expire_each : ℕ → List AgreementRow → M ℕ
expire_each expired_count [] = return expired_count
expire_each expired_count (agreement ∷ agreements) =
    expire_one expired_count agreement >>= λ n. expire_each n agreements

unfoldable pub expire_overdue_agreements : M ℕ
expire_overdue_agreements = do now ← current_time; overdue ← find_expired now; expire_each 0 overdue

-- ===== src/Audit.antt =====
-- The audit service (AuditService.record of api/src/audit/audit.service.ts). The hashes that the
-- database adds to a record are in Chain.
pub mod Chain
pub mod Detection
pub mod Verification
mod Examples
use onlineaggrement.Base.{ℕ, List, Option, String, insert}
use onlineaggrement.Database.{Datum, AuditEvent, AuditRow}
use onlineaggrement.Service.{M, write}

pub record AuditContext : Type 0 where
  pub agreement_id : Option ℕ
  pub agreement_version : Option ℕ
  pub actor_id : Option ℕ
  pub ip_address : Option String
  pub user_agent : Option String

unfoldable pub audit_row : AuditEvent → List (String × Datum) → AuditContext → AuditRow
audit_row event_type event_data ctx = record {
  agreement_id = ctx.agreement_id;
  agreement_version = ctx.agreement_version;
  actor_id = ctx.actor_id;
  event_type = event_type;
  event_data = event_data;
  ip_address = ctx.ip_address;
  user_agent = ctx.user_agent;
}

unfoldable pub audit_record : AuditEvent → List (String × Datum) → AuditContext → M (Unit {0})
unfolding audit_row
audit_record event_type event_data ctx =
    write λ d. record d { audit_logs = insert (audit_row event_type event_data ctx) d.audit_logs }

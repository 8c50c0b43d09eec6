-- ===== src/Notifications/Dispatch.antt =====
-- The sending of emails (dispatchPending of api/src/notifications/notifications.service.ts).
use onlineaggrement.Base.{
  String_eq, ℕ, suc, Bool, true, false, ◌&&◌, List, [], ◌∷◌, Option, none, some, String, Text,
  codes, any, first, update_where, take, ltb, ◌==◌, ℕ_eq, if◌then◌else◌,
}
use onlineaggrement.Errors.{DomainError, error_code}
use onlineaggrement.Database.{
  Db, NotificationRow, RecipientRow, NotificationEvent, completed, rejected, NotificationStatus,
  queued, sent, failed, Datum, null, str, txt, email_sent, email_failed,
}
use onlineaggrement.Service.{
  M, ◌>>=◌, ◌>>◌, return, from_result, query, write, current_time, fresh_id, catch,
}
use onlineaggrement.Audit.{AuditContext, audit_record}
use onlineaggrement.Notifications.Mails.{Mailer, PendingRow, render_mail}

abbrev pub is_due : NotificationStatus → Bool
is_due queued = true
is_due failed = true
is_due _ = false

abbrev pub is_pending : RecipientRow → Bool
is_pending r = is_due r.status && ltb r.attempt_count 5

abbrev pub join_row : Option NotificationRow → RecipientRow → List PendingRow → List PendingRow
join_row none r rest = rest
join_row (some n) r rest =
    if is_pending r then record { recipient = r; notification = n } ∷ rest else rest

-- The join of the recipients that are pending with their notifications.
unfoldable pub joined : List NotificationRow → List RecipientRow → List PendingRow
joined notifications [] = []
joined notifications (r ∷ rows) =
    join_row (first (λ n. n.id == r.notification_id) notifications) r (joined notifications rows)

unfoldable pub pending_rows : ℕ → Db → List PendingRow
pending_rows limit d = take limit (joined d.notifications d.notification_recipients)

abbrev about : PendingRow → AuditContext
about row = record {
  agreement_id = some row.notification.agreement_id;
  agreement_version = none;
  actor_id = none;
  ip_address = none;
  user_agent = none;
}

abbrev event_code : NotificationEvent → String
event_code completed = "COMPLETED"
event_code NotificationEvent.agent_signed = "AGENT_SIGNED"
event_code NotificationEvent.employee_approved = "EMPLOYEE_APPROVED"
event_code NotificationEvent.employee_signed = "EMPLOYEE_SIGNED"
event_code rejected = "REJECTED"
event_code NotificationEvent.reminder = "REMINDER"

unfoldable pub set_recipient : ℕ → (RecipientRow → RecipientRow) → M (Unit {0})
set_recipient id f = write λ d. record d {
  notification_recipients = update_where (λ r. r.id == id) f d.notification_recipients;
}

unfoldable pub as_sent : RecipientRow → ℕ → Option Text → RecipientRow → RecipientRow
as_sent row now message_id r = record r {
  status = sent;
  sent_at = some now;
  provider_message_id = message_id;
  attempt_count = suc row.attempt_count;
  failure_reason = none;
}

unfoldable pub as_failed : RecipientRow → Text → RecipientRow → RecipientRow
as_failed row reason r = record r {
  status = failed;
  attempt_count = suc row.attempt_count;
  failure_reason = some reason;
}

abbrev message_data : Option Text → Datum
message_data none = null
message_data (some t) = txt t

pub record Dispatched : Type 0 where
  pub sent : ℕ
  pub failed : ℕ

abbrev pub counted : Bool → Dispatched → Dispatched
counted true n = record n { sent = suc n.sent }
counted false n = record n { failed = suc n.failed }

module _ (mailer : Mailer) where
  unfoldable pub send_row : PendingRow → M (Option Text)
  send_row row = do
    now ← current_time
    mail ← query (render_mail mailer now row)
    attempt ← fresh_id
    from_result (mailer.send attempt mail)

  unfoldable pub deliver : PendingRow → M Bool
  deliver row = do
    message_id ← send_row row
    now ← current_time
    set_recipient row.recipient.id (as_sent row.recipient now message_id)
    audit_record email_sent
        (("recipient", txt row.recipient.email)
          ∷ ("event", str (event_code row.notification.event_type))
          ∷ ("messageId", message_data message_id)
          ∷ [])
        (about row)
    return true

  -- The message of an error stands for its code here.
  unfoldable pub record_failure : PendingRow → DomainError → M Bool
  record_failure row e = do
    set_recipient row.recipient.id (as_failed row.recipient (codes (error_code e)))
    audit_record email_failed
        (("recipient", txt row.recipient.email)
          ∷ ("event", str (event_code row.notification.event_type))
          ∷ ("reason", str (error_code e))
          ∷ [])
        (about row)
    return false

  unfoldable pub dispatch_one : PendingRow → M Bool
  dispatch_one row = catch (deliver row) (record_failure row)

  -- Each recipient is attempted, whatever became of those before.
  unfoldable pub dispatch_each : List PendingRow → Dispatched → M Dispatched
  dispatch_each [] n = return n
  dispatch_each (row ∷ rows) n = do went ← dispatch_one row; dispatch_each rows (counted went n)

abbrev has_id : List PendingRow → NotificationRow → Bool
has_id rows n = any (λ r. r.notification.id == n.id) rows

abbrev is_undispatched : NotificationRow → Bool
is_undispatched n = elim n.dispatched_at [ none ↦ true | some t ↦ false ]

unfoldable pub mark_dispatched : List PendingRow → ℕ → Db → Db
mark_dispatched rows now d = record d {
  notifications =
      update_where (λ n. has_id rows n && is_undispatched n)
        (λ n. record n { dispatched_at = some now }) d.notifications;
}

unfoldable pub dispatch_pending : Mailer → ℕ → M Dispatched
dispatch_pending mailer limit = do
  pending ← query (pending_rows limit)
  n ← dispatch_each mailer pending (record { sent = 0; failed = 0 })
  now ← current_time
  write (mark_dispatched pending now)
  return n

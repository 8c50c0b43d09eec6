-- ===== src/Notifications/Examples.antt =====
-- A dispatch whose first email is refused by the mail server, and the theorem applied to it.
use onlineaggrement.Base.{
  ℕ, ◌+◌, ◌≡◌, refl, false, [], ◌∷◌, none, some, codes, All, any, length, map, nat_eq,
  if◌then◌else◌, ◌==◌, ℕ_eq, first, update_where,
}
use onlineaggrement.Errors.{ok, err, other_error}
use onlineaggrement.Database.{
  World, empty_db, NotificationRow, RecipientRow, NotificationEvent, queued, sent, failed,
}
use onlineaggrement.Service.{
  done, final, ◌>>=◌, ◌>>◌, return, query, write, current_time, fresh_id, catch, from_result,
}
use onlineaggrement.Audit.{audit_record}
use onlineaggrement.Notifications.Mails.{
  Mailer, mail_lines, download_link, render_mail, html_of, escape_html, payload_at,
}
use onlineaggrement.Notifications.Dispatch.{
  Dispatched, joined, pending_rows, set_recipient, as_sent, as_failed, send_row, deliver,
  record_failure, dispatch_one, dispatch_each, mark_dispatched, dispatch_pending,
}
use onlineaggrement.Notifications.Attempts.{IsAttempted, recipient_at, dispatch_pending-attempts}

-- The server refuses the attempt 5.
abbrev server : Mailer
server = record {
  sender = codes "noreply@gtids";
  send = λ i m. if nat_eq i 5 then err (other_error "ECONNREFUSED") else ok (some (codes "<m>"));
  signed_url = λ k now. codes "https://files/k";
  verify_base_url = codes "https://verify";
}

abbrev to_be_sent : ℕ → ℕ → RecipientRow
to_be_sent id attempts = record {
  id = id;
  notification_id = 1;
  party_id = id;
  email = codes "a@bank";
  status = queued;
  sent_at = none;
  provider_message_id = none;
  failure_reason = none;
  attempt_count = attempts;
}

abbrev notification : NotificationRow
notification = record {
  id = 1;
  agreement_id = 7;
  event_type = NotificationEvent.agent_signed;
  subject = codes "Action required";
  payload = [];
  created_at = 900;
  dispatched_at = none;
}

-- Of four recipients, the last has had its five attempts and the third has no notification.
abbrev outbox : World
outbox = record {
  db = record empty_db {
    notifications = notification ∷ [];
    notification_recipients =
        to_be_sent 1 0
        ∷ to_be_sent 2 3
        ∷ record (to_be_sent 3 0) { notification_id = 9 }
        ∷ to_be_sent 4 5
        ∷ [];
  };
  objects = [];
  now = 1000;
  next_id = 5;
}

-- What a test of a dispatch computes with.
dispatching : Unit {0}
unfolding ◌>>=◌ ◌>>◌ return query write current_time fresh_id catch from_result audit_record joined
    pending_rows mail_lines download_link render_mail set_recipient as_sent as_failed send_row
    deliver record_failure dispatch_one dispatch_each mark_dispatched dispatch_pending html_of
    escape_html payload_at first update_where
dispatching = tt

abbrev after : World
unfolding dispatching
after = final (dispatch_pending server 50 outbox)

dispatch_tests :
    (dispatch_pending server 50 outbox ≡ done (record { sent = 1; failed = 1 }) after)
    × (map (λ r. r.status) after.db.notification_recipients ≡ failed ∷ sent ∷ queued ∷ queued ∷ [])
    × (map (λ r. r.attempt_count) after.db.notification_recipients ≡ 1 ∷ 4 ∷ 0 ∷ 5 ∷ [])
    × (map (λ n. n.dispatched_at) after.db.notifications ≡ some 1000 ∷ [])
unfolding dispatching
dispatch_tests = (refl, refl, refl, refl)

dispatch_pending-attempts_example :
    (n : Dispatched) × (v : World) × (dispatch_pending server 50 outbox ≡ done n v)
    × (n.sent + n.failed ≡ length (pending_rows 50 outbox.db))
    × All (IsAttempted v.db) (pending_rows 50 outbox.db)
    × ((i : ℕ)
        → any (λ q. q.recipient.id == i) (pending_rows 50 outbox.db) ≡ false
        → recipient_at i v.db ≡ recipient_at i outbox.db)
unfolding dispatching
dispatch_pending-attempts_example = dispatch_pending-attempts server 50 outbox (refl, (refl, tt))

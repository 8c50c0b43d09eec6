-- ===== src/Notifications.antt =====
-- The fan-out of notifications over the outbox (NotificationsService.enqueue of
-- api/src/notifications/notifications.service.ts).
pub mod Mails
pub mod Dispatch
pub mod Attempts
pub mod Reminders
mod Examples
use onlineaggrement.Base.{
  ◌++◌, codes, Text, ℕ, Bool, List, [], ◌∷◌, none, String, select, any, first, insert, nat_eq, ◌&&◌,
  ◌==◌, ℕ_eq,
}
use onlineaggrement.Errors.{other_error}
use onlineaggrement.Database.{
  PartyType, PartyRow, NotificationEvent, RecipientRow, Datum, txt, queued,
}
use onlineaggrement.Service.{M, ◌>>=◌, ◌>>◌, return, or_throw, query, write, fresh_id, current_time}
use onlineaggrement.Documents.Storage.{party_index}

pub record EnqueueRequest : Type 0 where
  pub agreement_id : ℕ
  pub event_type : NotificationEvent
  pub recipients : List PartyType
  pub payload : List (String × Datum)

abbrev pub is_recipient : EnqueueRequest → PartyRow → Bool
is_recipient req p =
    p.agreement_id == req.agreement_id
    && any (λ t. nat_eq (party_index t) (party_index p.party_type)) req.recipients

unfoldable pub subject_of : NotificationEvent → Text → Text
subject_of NotificationEvent.completed n = codes "Agreement " ++ (n ++ codes " is complete")
subject_of NotificationEvent.rejected n = codes "Agreement " ++ (n ++ codes " was rejected")
subject_of NotificationEvent.reminder n =
    codes "Reminder: agreement " ++ (n ++ codes " is awaiting your action")
subject_of _ n = codes "Action required: agreement " ++ (n ++ codes " awaits your signature")

unfoldable pub recipient_row : ℕ → ℕ → PartyRow → RecipientRow
recipient_row id notification_id p = record {
  id = id;
  notification_id = notification_id;
  party_id = p.id;
  email = p.email;
  status = queued;
  sent_at = none;
  provider_message_id = none;
  failure_reason = none;
  attempt_count = 0;
}

unfoldable pub insert_recipients : ℕ → List PartyRow → M (Unit {0})
insert_recipients notification_id [] = return tt
insert_recipients notification_id (p ∷ parties) = do
  id ← fresh_id
  write (λ d. record d {
    notification_recipients = insert (recipient_row id notification_id p) d.notification_recipients;
  })
  insert_recipients notification_id parties

-- One notification, one row for each of its recipients, and one event of the outbox. An agreement
-- that is not there has no number to report.
unfoldable pub enqueue : EnqueueRequest → M ℕ
enqueue req = do
  row ← query (λ d. first (λ r. r.id == req.agreement_id) d.agreements)
  parties ← query (λ d. select (is_recipient req) d.agreement_parties)
  agreement ← or_throw row (other_error "TypeError")
  notification_id ← fresh_id
  now ← current_time
  write (λ d. record d {
    notifications =
        insert
          (record {
            id = notification_id;
            agreement_id = req.agreement_id;
            event_type = req.event_type;
            subject = subject_of req.event_type agreement.agreement_number;
            payload = ("agreementNumber", txt agreement.agreement_number) ∷ req.payload;
            created_at = now;
            dispatched_at = none;
          })
          d.notifications;
  })
  insert_recipients notification_id parties
  write (λ d. record d {
    outbox_events =
        insert
          (record {
            aggregate_id = req.agreement_id;
            event_type = req.event_type;
            notification_id = notification_id;
          })
          d.outbox_events;
  })
  return notification_id

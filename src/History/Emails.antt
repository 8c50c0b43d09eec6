-- ===== src/History/Emails.antt =====
-- The history, for the emails and the reminders (api/src/notifications/notifications.service.ts).
use onlineaggrement.Base.{ℕ, List, [], ◌∷◌, Option, none, some}
use onlineaggrement.Database.{PartyType}
use onlineaggrement.Service.Keeps.{Keeps}
use onlineaggrement.Notifications.Mails.{Mailer, PendingRow}
use onlineaggrement.Notifications.Dispatch.{
  Dispatched, counted, set_recipient, send_row, deliver, record_failure, dispatch_one,
  dispatch_each, mark_dispatched, dispatch_pending,
}
use onlineaggrement.Notifications.Reminders.{
  Candidate, remind_recipient, remind_one, remind_each, send_due_reminders,
}
use onlineaggrement.History.{Follows}
use onlineaggrement.History.Steps.{steps, write-apart, Follows->>=, Follows-return}
use onlineaggrement.History.Documents.{enqueue-Keeps}

module _ (mailer : Mailer) where
  dispatch_one-Keeps : (row : PendingRow) → Keeps Follows (dispatch_one mailer row)
  unfolding dispatch_one deliver record_failure send_row set_recipient
  dispatch_one-Keeps row = search (steps, write-apart) depth 80

  dispatch_each-Keeps :
      (rows : List PendingRow) (n : Dispatched) → Keeps Follows (dispatch_each mailer rows n)
  unfolding dispatch_each
  dispatch_each-Keeps [] n = Follows-return n
  dispatch_each-Keeps (row ∷ rows) n =
      Follows->>= (dispatch_one-Keeps row) λ went. dispatch_each-Keeps rows (counted went n)

  pub dispatch_pending-Keeps : (limit : ℕ) → Keeps Follows (dispatch_pending mailer limit)
  unfolding dispatch_pending mark_dispatched
  dispatch_pending-Keeps limit = search (steps, write-apart, dispatch_each-Keeps) depth 60

remind_recipient-Keeps :
    (now : ℕ) (c : Candidate) (o : Option PartyType) → Keeps Follows (remind_recipient now c o)
unfolding remind_recipient
remind_recipient-Keeps now c none = search steps
remind_recipient-Keeps now c (some recipient) = search (steps, enqueue-Keeps) depth 40

remind_one-Keeps : (now : ℕ) (c : Candidate) → Keeps Follows (remind_one now c)
unfolding remind_one
remind_one-Keeps now c = search (steps, remind_recipient-Keeps)

remind_each-Keeps : (now : ℕ) (cs : List Candidate) (n : ℕ) → Keeps Follows (remind_each now cs n)
unfolding remind_each
remind_each-Keeps now [] n = Follows-return n
remind_each-Keeps now (c ∷ cs) n =
    Follows->>= (remind_one-Keeps now c) λ went. remind_each-Keeps now cs _

pub send_due_reminders-Keeps : (now : ℕ) → Keeps Follows (send_due_reminders now)
unfolding send_due_reminders
send_due_reminders-Keeps now = search (steps, remind_each-Keeps)

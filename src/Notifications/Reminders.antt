-- ===== src/Notifications/Reminders.antt =====
-- The reminders (sendDueReminders of api/src/notifications/notifications.service.ts).
use onlineaggrement.Base.{
  ℕ, suc, ◌+◌, ◌-◌, ◌*◌, ◌/◌, Bool, true, false, not, ◌&&◌, List, [], ◌∷◌, ◌++◌, Option, none, some,
  any, select, map, includes, ltb, leb, ◌==◌, ℕ_eq, if◌then◌else◌,
}
use onlineaggrement.Database.{Db, AgreementRow, StageSlaRow, NotificationEvent, PartyType, num}
use onlineaggrement.Service.{M, ◌>>=◌, return, branch, query}
use onlineaggrement.Workflow.States.{
  AgreementState, AgreementState_eq, completed, cancelled, rejected, expired,
  ready_for_agent_signature, agent_signing, pending_employee_approval, employee_approving,
  pending_employee_signature, employee_signing, pending_md_signature, md_signing,
}
use onlineaggrement.Workflow.Service.{ms_per_day}
use onlineaggrement.Notifications.{EnqueueRequest, enqueue}

pub record Candidate : Type 0 where
  pub agreement : AgreementRow
  pub deadline : ℕ
  pub sla : StageSlaRow

abbrev is_over : AgreementState → Bool
is_over s = includes (completed ∷ cancelled ∷ rejected ∷ expired ∷ []) s

unfoldable pub candidates_of : AgreementRow → Option ℕ → List StageSlaRow → List Candidate
candidates_of a none slas = []
candidates_of a (some deadline) slas =
    map (λ sla. record { agreement = a; deadline = deadline; sla = sla })
      (select
        (λ sla.
          sla.agreement_type_id == a.agreement_type_id
          && sla.stage == a.status
          && not (is_over a.status))
        slas)

-- The agreements with a deadline, each with the agreed time for its stage.
unfoldable pub candidates : List StageSlaRow → List AgreementRow → List Candidate
candidates slas [] = []
candidates slas (a ∷ agreements) = candidates_of a a.expires_at slas ++ candidates slas agreements

-- `sla_days - ceil((deadline - now) / day)`; `none` is a number below zero.
unfoldable pub elapsed_days : (sla_days deadline now : ℕ) → Option ℕ
elapsed_days sla_days deadline now =
    let left = (deadline - now + (ms_per_day - 1)) / ms_per_day in
    if leb now deadline
    then if leb left sla_days then some (sla_days - left) else none
    else some (sla_days + (now - deadline) / ms_per_day)

unfoldable pub pending_recipient : AgreementState → Option PartyType
pending_recipient ready_for_agent_signature = some PartyType.agent
pending_recipient agent_signing = some PartyType.agent
pending_recipient pending_employee_approval = some PartyType.employee
pending_recipient employee_approving = some PartyType.employee
pending_recipient pending_employee_signature = some PartyType.employee
pending_recipient employee_signing = some PartyType.employee
pending_recipient pending_md_signature = some PartyType.md
pending_recipient md_signing = some PartyType.md
pending_recipient _ = none

abbrev is_reminder : NotificationEvent → Bool
is_reminder NotificationEvent.reminder = true
is_reminder _ = false

-- Twenty hours.
abbrev pub reminder_gap : ℕ
reminder_gap = 20 * 3600000

unfoldable pub was_reminded : ℕ → ℕ → Db → Bool
was_reminded agreement_id now d =
    any
      (λ n.
        n.agreement_id == agreement_id
        && is_reminder n.event_type
        && ltb now (n.created_at + reminder_gap))
      d.notifications

abbrev is_reminder_day : Option ℕ → StageSlaRow → Bool
is_reminder_day none sla = false
is_reminder_day (some days) sla = includes sla.reminder_days days

abbrev days_of : Option ℕ → ℕ
days_of none = 0
days_of (some n) = n

unfoldable pub reminder_request : Candidate → PartyType → ℕ → EnqueueRequest
reminder_request c recipient now = record {
  agreement_id = c.agreement.id;
  event_type = NotificationEvent.reminder;
  recipients = recipient ∷ [];
  payload =
      ("elapsedDays", num (days_of (elapsed_days c.sla.sla_days c.deadline now)))
      ∷ ("dueAt", num c.deadline)
      ∷ [];
}

unfoldable pub remind_recipient : ℕ → Candidate → Option PartyType → M Bool
remind_recipient now c none = return false
remind_recipient now c (some recipient) = do
  already ← query (was_reminded c.agreement.id now)
  branch already (return false) (enqueue (reminder_request c recipient now) >>= λ id. return true)

unfoldable pub remind_one : ℕ → Candidate → M Bool
remind_one now c =
    branch (is_reminder_day (elapsed_days c.sla.sla_days c.deadline now) c.sla)
      (remind_recipient now c (pending_recipient c.agreement.status)) (return false)

unfoldable pub remind_each : ℕ → List Candidate → ℕ → M ℕ
remind_each now [] sent = return sent
remind_each now (c ∷ cs) sent = do
  reminded ← remind_one now c
  remind_each now cs (if reminded then suc sent else sent)

unfoldable pub send_due_reminders : ℕ → M ℕ
send_due_reminders now = do
  found ← query (λ d. candidates d.stage_slas d.agreements)
  remind_each now found 0

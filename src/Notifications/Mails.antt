-- ===== src/Notifications/Mails.antt =====
-- The text of an email (renderBody of api/src/notifications/notifications.service.ts), which a mail
-- server, a parameter, sends.
use onlineaggrement.Base.{
  String_eq, ℕ, Bool, true, false, ◌&&◌, ◌||◌, List, [], ◌∷◌, ◌++◌, Option, none, some, String,
  Text, codes, decimal, first, select, nat_eq, reverse, ◌==◌, ℕ_eq, if◌then◌else◌,
}
use onlineaggrement.Errors.{Result}
use onlineaggrement.Database.{
  Db, AgreementRow, AgreementVersionRow, SignatureState, FileKey, NotificationRow, RecipientRow,
  NotificationEvent, completed, rejected, Datum, num, str, txt,
}

pub record Mail : Type 0 where
  pub sender : Text
  pub recipient : Text
  pub subject : Text
  pub text : Text
  pub html : Text

-- The n-th attempt to send a mail gives the identifier of the message, or throws.
pub record Mailer : Type 0 where
  pub sender : Text
  pub send : ℕ → Mail → Result (Option Text)
  pub signed_url : FileKey → ℕ → Text
  pub verify_base_url : Text

pub record PendingRow : Type 0 where
  pub recipient : RecipientRow
  pub notification : NotificationRow

-- `String(value ?? '')`, for the values that a payload holds.
abbrev text_of : Option Datum → Text → Text
text_of (some (txt t)) other = t
text_of (some (str s)) other = codes s
text_of (some (num n)) other = decimal n
text_of _ other = other

unfoldable pub payload_at : String → List (String × Datum) → Option Datum
payload_at key [] = none
payload_at key ((k, v) ∷ payload) = if k == key then some v else payload_at key payload

abbrev is_final : SignatureState → Bool
is_final SignatureState.final = true
is_final _ = false

-- The row that was inserted last.
unfoldable pub final_version : ℕ → Db → Option AgreementVersionRow
final_version agreement_id d =
    first (λ v. true)
      (reverse (
        select (λ v. v.agreement_id == agreement_id && is_final v.signature_state)
          d.agreement_versions))

abbrev link_of : Mailer → ℕ → Option AgreementVersionRow → Text
link_of mailer now none = []
link_of mailer now (some v) = mailer.signed_url v.file_key now

unfoldable pub download_link : Mailer → ℕ → NotificationRow → Db → Text
download_link mailer now n d = elim n.event_type [
  | completed ↦ link_of mailer now (final_version n.agreement_id d)
  | _ ↦ []
]

abbrev token_of : Option AgreementRow → Option Text
token_of none = none
token_of (some a) = a.verification_token

abbrev reference_of : Option AgreementRow → Option Text
reference_of none = none
reference_of (some a) = a.execution_reference

abbrev line_if : Text → Option Text → List Text
line_if label none = []
line_if label (some []) = []
line_if label (some (c ∷ s)) = (label ++ (c ∷ s)) ∷ []

abbrev some_text : Text → Option Text
some_text [] = none
some_text (c ∷ s) = some (c ∷ s)

abbrev verify_url : Mailer → Option Text → Option Text
verify_url mailer none = none
verify_url mailer (some []) = none
verify_url mailer (some (c ∷ s)) = some (mailer.verify_base_url ++ (codes "/" ++ (c ∷ s)))

-- The lines of a mail that are not empty.
unfoldable pub mail_lines :
    Mailer → NotificationRow → Option AgreementRow → (link : Text) → List Text
mail_lines mailer n agreement link =
    let number = text_of (payload_at "agreementNumber" n.payload) [] in
    let opening = codes "Agreement " ++ number in
    elim n.event_type [
      | completed ↦
          (opening ++ codes " has been fully executed.")
          ∷ (line_if (codes "Your reference for this agreement: ") (reference_of agreement)
              ++ (codes "Every party has completed their step and the signed document is final."
                  ∷ (line_if (codes "Download (link expires shortly): ") (some_text link)
                      ++ line_if (codes "Verify at any time: ")
                          (verify_url mailer (token_of agreement)))))
      | NotificationEvent.agent_signed ↦
          (opening ++ codes " has been signed by the Agent and is awaiting your signature.") ∷ []
      | NotificationEvent.employee_approved ↦
          (opening ++ codes " has been approved and is awaiting your signature.") ∷ []
      | NotificationEvent.employee_signed ↦
          (opening
            ++ codes " has been signed by the Agent and by GTIDS, and is awaiting your signature.")
          ∷ []
      | rejected ↦
          (opening
            ++ (codes " was rejected by the "
                ++ (text_of (payload_at "rejectedBy" n.payload) (codes "approver") ++ codes ".")))
          ∷ (codes "Reason: " ++ text_of (payload_at "reason" n.payload) (codes "not recorded"))
          ∷ []
      | NotificationEvent.reminder ↦ (opening ++ codes " is still awaiting your action.") ∷ []
    ]

-- The five characters that are escaped are written by their codes.
unfoldable pub escape_html : Text → Text
escape_html [] = []
escape_html (c ∷ s) =
    let rest = escape_html s in
    if nat_eq c b'&' || nat_eq c b'<' || nat_eq c b'>' || nat_eq c b'"' || nat_eq c 39
    then codes "&#" ++ (decimal c ++ (b';' ∷ rest))
    else c ∷ rest

abbrev join_lines : List Text → Text
join_lines [] = []
join_lines (l ∷ []) = l
join_lines (l ∷ m ∷ lines) = l ++ (10 ∷ 10 ∷ join_lines (m ∷ lines))

abbrev paragraphs : List Text → Text
paragraphs [] = []
paragraphs (l ∷ lines) = codes "<p>" ++ (escape_html l ++ (codes "</p>" ++ paragraphs lines))

unfoldable pub html_of : List Text → Text
html_of lines =
    codes "<div style=\"font-family:system-ui,sans-serif;line-height:1.6\">"
    ++ (paragraphs lines
        ++ codes
            "<hr><p style=\"color:#666;font-size:12px\">Gramtarang Inclusive Development Services</p></div>")

unfoldable pub render_mail : Mailer → ℕ → PendingRow → Db → Mail
render_mail mailer now row d =
    let n = row.notification in
    let lines =
      mail_lines mailer n (first (λ a. a.id == n.agreement_id) d.agreements)
        (download_link mailer now n d) in
    record {
      sender = mailer.sender;
      recipient = row.recipient.email;
      subject = n.subject;
      text = join_lines lines;
      html = html_of lines;
    }

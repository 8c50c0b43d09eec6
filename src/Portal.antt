-- ===== src/Portal.antt =====
-- The portal as a whole: the calls of its controllers and its scheduler that write to the database,
-- one after the other, and the clock (api/src/workflow, api/src/signing, api/src/stamps,
-- api/src/agreements, api/src/banks, api/src/users, api/src/auth, api/src/notifications,
-- api/src/jobs). The registration of stamps (api/src/stamps/stamps.controller.ts) and the writes to
-- templates (api/src/templates) are not among them.
pub mod Reachable
mod Examples
use onlineaggrement.Base.{ℕ, Bool, List, String, Text}
use onlineaggrement.Database.{World, FileKey}
use onlineaggrement.Service.{M, ◌>>=◌, ◌>>◌, return, current_time}
use onlineaggrement.Documents.{Platform}
use onlineaggrement.Documents.Composing.{Authoring}
use onlineaggrement.Esign.{Provider, VerifiedCallback, ingest_callback}
use onlineaggrement.Workflow.Service.{TransitionRequest, transition}
use onlineaggrement.Workflow.Corrections.{CorrectRequest, correct_agreement}
use onlineaggrement.Workflow.Sweep.{expire_overdue_agreements}
use onlineaggrement.Signing.Parties.{Principal}
use onlineaggrement.Signing.Ceremony.{ActionContext, InitiateParams, initiate_signature}
use onlineaggrement.Signing.Ceremony.{fail_signature}
use onlineaggrement.Signing.Completion.{complete}
use onlineaggrement.Signing.Rejection.{RejectParams, reject_agreement}
use onlineaggrement.Signing.Recovery.{apply_outcome, reconcile}
use onlineaggrement.Agreements.Drafts.{CreateAgreementInput, ClientContext, create_agreement}
use onlineaggrement.Agreements.Editing.{DraftPatch, update_draft}
use onlineaggrement.Agreements.Composing.{
  allocate_stamp, upload_agreement_document, compose_from_bank_document,
}
use onlineaggrement.Agreements.Generation.{generate_agreement, document_url}
use onlineaggrement.Banks.{CreateBankInput, UpdateBankInput, create_bank, update_bank}
use onlineaggrement.Banks.Documents.{BankFile, upload_document}
use onlineaggrement.Users.Passwords.{Hashing}
use onlineaggrement.Users.{UpsertInput, upsert_user, set_active, reset_password}
use onlineaggrement.Auth.{Credentials, login, issue_party_access, redeem_party_access}
use onlineaggrement.Notifications.Mails.{Mailer}
use onlineaggrement.Notifications.Dispatch.{dispatch_pending}
use onlineaggrement.Notifications.Reminders.{send_due_reminders}

-- What the portal runs on.
pub record Outside : Type 0 where
  pub platform : Platform
  pub provider : Provider
  pub authoring : Authoring
  pub credentials : Credentials
  pub hashing : Hashing
  pub mailer : Mailer
  pub signed_url : FileKey → ℕ → Text

pub data Call : Type 0 where
  call_transition : TransitionRequest → Call
  call_correct : CorrectRequest → Call
  call_create : CreateAgreementInput → Principal → ClientContext → Call
  call_update : (agreement_id : ℕ) → DraftPatch → Principal → ClientContext → Call
  call_allocate : (agreement_id stamp_id : ℕ) → Principal → Call
  call_upload :
      (agreement_id : ℕ)
      → List ℕ
      → (filename content_type : String) → Principal
      → ClientContext
      → Call
  call_compose call_generate call_download : (agreement_id : ℕ) → Principal → ClientContext → Call
  call_initiate : InitiateParams → ActionContext → Call
  call_reject : RejectParams → ActionContext → Call
  call_callback : (unverified_id : String) (raw_body : List ℕ) → Call
  call_outcome : (transaction_id : ℕ) → VerifiedCallback → Call
  call_complete : (transaction_id : ℕ) → Call
  call_fail : (transaction_id : ℕ) → (code : String) → Call
  call_create_bank : CreateBankInput → (actor_id : ℕ) → Call
  call_update_bank : (bank_id : ℕ) → UpdateBankInput → (actor_id : ℕ) → Call
  call_bank_document : (bank_id : ℕ) → BankFile → (actor_id : ℕ) → Call
  call_upsert_user : UpsertInput → (actor_id : ℕ) → Call
  call_set_active : (user_id : ℕ) → Bool → (actor_id : ℕ) → Call
  call_reset_password : (user_id actor_id : ℕ) → Call
  call_login : (email password : Text) → ActionContext → Call
  call_issue : (agreement_id party_id issued_by : ℕ) → ActionContext → Call
  call_redeem : (token : Text) → ActionContext → Call
  call_reconcile call_expire call_remind : Call
  call_dispatch : (limit : ℕ) → Call

unfoldable pub perform : Outside → Call → M (Unit {0})
perform o (call_transition req) = transition req >> return tt
perform o (call_correct req) = correct_agreement req >> return tt
perform o (call_create input actor ctx) = create_agreement o.platform input actor ctx >> return tt
perform o (call_update id patch actor ctx) = update_draft id patch actor ctx >> return tt
perform o (call_allocate id stamp_id actor) = allocate_stamp id stamp_id actor >> return tt
perform o (call_upload id file filename content_type actor ctx) =
    upload_agreement_document o.platform o.authoring id file filename content_type actor ctx
    >> return tt
perform o (call_compose id actor ctx) =
    compose_from_bank_document o.platform o.authoring id actor ctx >> return tt
perform o (call_generate id actor ctx) =
    generate_agreement o.platform o.authoring id actor ctx >> return tt
perform o (call_download id actor ctx) = document_url o.signed_url id actor ctx >> return tt
perform o (call_initiate params ctx) =
    initiate_signature o.platform o.provider params ctx >> return tt
perform o (call_reject params ctx) = reject_agreement params ctx
perform o (call_callback id body) = ingest_callback o.provider id body >> return tt
perform o (call_outcome id event) = apply_outcome o.platform o.provider id event
perform o (call_complete id) = complete o.platform o.provider id >> return tt
perform o (call_fail id code) = fail_signature id code >> return tt
perform o (call_create_bank input actor_id) = create_bank input actor_id >> return tt
perform o (call_update_bank id input actor_id) = update_bank id input actor_id >> return tt
perform o (call_bank_document id file actor_id) =
    upload_document o.platform o.authoring id file actor_id >> return tt
perform o (call_upsert_user input actor_id) = upsert_user o.hashing input actor_id >> return tt
perform o (call_set_active id is_active actor_id) = set_active id is_active actor_id >> return tt
perform o (call_reset_password id actor_id) = reset_password o.hashing id actor_id >> return tt
perform o (call_login email password ctx) = login o.credentials email password ctx >> return tt
perform o (call_issue id party_id issued_by ctx) =
    issue_party_access o.credentials id party_id issued_by ctx >> return tt
perform o (call_redeem token ctx) = redeem_party_access o.credentials token ctx >> return tt
perform o call_reconcile = reconcile o.platform o.provider >> return tt
perform o call_expire = expire_overdue_agreements >> return tt
perform o call_remind = current_time >>= λ now. send_due_reminders now >> return tt
perform o (call_dispatch limit) = dispatch_pending o.mailer limit >> return tt

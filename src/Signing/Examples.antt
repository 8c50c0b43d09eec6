-- ===== src/Signing/Examples.antt =====
-- Tests on concrete worlds of agreements that are being signed, and the theorems applied to them.
use onlineaggrement.Base.{
  lpad, pad_start, ℕ, ℕ_eq, ◌/◌, ◌≡◌, ◌⊎◌, refl, [], ◌∷◌, Option, none, some, Text, map, first,
  select, update_where, digits, decimal, arith,
}
use onlineaggrement.Database.{World, PartyType}
use onlineaggrement.Service.{
  done, final, ◌>>=◌, ◌>>◌, return, throw, throw_if, branch, or_throw, from_result, query, write,
  current_time, fresh_id, transaction, catch,
}
use onlineaggrement.Audit.{audit_record}
use onlineaggrement.Workflow.States.{
  AgreementState, agent_signing, md_signing, completed, pending_employee_signature,
}
use onlineaggrement.Workflow.Rules.{agent_party, md_party, transitions, permits, assert_transition}
use onlineaggrement.Workflow
use onlineaggrement.Workflow.Service.{transition_in}
use onlineaggrement.Documents
use onlineaggrement.Documents.{Platform, Slot, StoredVersion, complete_signature}
use onlineaggrement.Documents.Storage.{
  get_object, exists_object, put_object, link_object, same_key, same_name,
}
use onlineaggrement.Notifications.{enqueue, insert_recipients, recipient_row}
use onlineaggrement.Stamps.{mark_used, use_stamp, live_allocation, set_status}
use onlineaggrement.Esign.{get_transaction, mark_signed, mark_failed, record_integrity_alert}
use onlineaggrement.Signing.Tokens.{generate_verification_token}
use onlineaggrement.Signing.Reference
use onlineaggrement.Signing.Reference.{reference, mint_execution_reference}
use onlineaggrement.Signing.Padding.{reference-injective, reference-cuts}
use onlineaggrement.Signing.Parties.{party_by_id, party_at}
use onlineaggrement.Signing.Ceremony.{
  add_signature_event, fail_signature, fail_in, fail_agreement, fail_transition,
}
use onlineaggrement.Signing.Completion.{
  succeed_transition, advance_transition, notify_signed, advance, finalize, apply_signature,
  settle_signature, handle_failure,
}
use onlineaggrement.Signing.Advances.{IsAdvance, apply_signature-IsAdvance}
use onlineaggrement.Signing.Parties
use onlineaggrement.Signing.Ceremony.{ActionContext}
use onlineaggrement.Signing.Rejection.{
  RejectParams, by_employee, reject_action, rejecting_party, reject_transition, reject_in,
  reject_agreement,
}
use onlineaggrement.Signing.Outcomes.{IsRejection, reject_agreement-IsRejection}
use onlineaggrement.Signing.Failed.{IsFailure, fail_signature-IsFailure}
use onlineaggrement.Workflow.States.{Role}
use onlineaggrement.Errors.{forbidden}
use onlineaggrement.Base.{trim}
use onlineaggrement.Service.{fail}
use onlineaggrement.Workflow.Rules.{lacks_reason}
use onlineaggrement.Database.{SignatureState}
use onlineaggrement.Signing.Worlds.{platform, parked, world, completion}
use onlineaggrement.Signing.Failure.{documents_of, settle_signature-advances}

-- What a test of a completion computes with.
signing : Unit {0}
unfolding ◌>>=◌ ◌>>◌ return throw throw_if branch or_throw from_result query write current_time
    fresh_id transaction catch audit_record assert_transition transitions permits first select
    update_where transition_in Workflow.Service.lock_agreement Workflow.Service.get_agreement
    Workflow.Service.restart_sla Workflow.Service.restarts_sla Workflow.Service.sla_deadline
    Workflow.Service.add_days Workflow.Service.update_agreements Workflow.Service.patched
    Workflow.Corrections.transition_chain_in Workflow.Corrections.chain_from
    Documents.complete_signature Documents.store Documents.store_version Documents.insert_version
    Documents.is_version Documents.insert_document Documents.object_key get_object exists_object
    put_object link_object same_key same_name enqueue insert_recipients recipient_row mark_used
    use_stamp live_allocation set_status get_transaction mark_signed mark_failed
    record_integrity_alert generate_verification_token Reference.mint_execution_reference
    Reference.keep_or_mint Reference.mint_for Reference.agent_code_of
    Reference.next_execution_reference Reference.ensure_sequence Reference.financial_year pad_start
    reference lpad digits decimal party_by_id party_at add_signature_event fail_signature fail_in
    fail_agreement fail_transition succeed_transition advance_transition notify_signed advance
    finalize apply_signature settle_signature handle_failure by_employee reject_action
    rejecting_party reject_transition reject_in reject_agreement Parties.party
    Documents.current_version trim lacks_reason
signing = tt

agent_signs :
    (s : StoredVersion) × (v : World) × (apply_signature platform
        (completion agent_signing PartyType.agent agent_party 2)
        (world agent_signing PartyType.agent 2)
      ≡ done s v)
    × (map (λ a. a.status) v.db.agreements ≡ pending_employee_signature ∷ [])
unfolding signing
agent_signs = (_, _, refl, refl)

-- The last signature mints the reference GT/X1/2026-27/001, of the agent with the code x1.
md_signs :
    (s : StoredVersion) × (v : World) × (apply_signature platform
        (completion md_signing PartyType.agent md_party 2)
        (world md_signing PartyType.agent 2)
      ≡ done s v)
    × (map {B = AgreementState × Option Text × Option Text}
          (λ a. (a.status, a.execution_reference, a.verification_token))
          v.db.agreements
        ≡ (
          completed,
          some (
              b'G' ∷ b'T' ∷ b'/' ∷ b'X' ∷ b'1' ∷ b'/' ∷ b'2' ∷ b'0' ∷ b'2' ∷ b'6' ∷ b'-' ∷ b'2'
              ∷ b'7' ∷ b'/' ∷ b'0' ∷ b'0' ∷ b'1' ∷ []),
          some (b'H' ∷ b'9' ∷ []),
        )
          ∷ [])
unfolding signing
md_signs = (_, _, refl, refl)

-- A parked document with another digest stops the agreement.
substituted :
    (v : World) × (settle_signature platform
        (completion agent_signing PartyType.agent agent_party 5)
        (world agent_signing PartyType.agent 5)
      ≡ done tt v)
    × (map (λ a. a.status) v.db.agreements ≡ AgreementState.signature_failed ∷ [])
unfolding signing
substituted = (_, refl, refl)

apply_signature-IsAdvance_example :
    IsAdvance 7 agent_party (world agent_signing PartyType.agent 2) agent_signs.1
apply_signature-IsAdvance_example =
    apply_signature-IsAdvance platform (completion agent_signing PartyType.agent agent_party 2)
      (world agent_signing PartyType.agent 2) agent_signs.1 agent_signs.0 agent_signs.2

settle_signature-advances_example :
    IsAdvance 7 agent_party (world agent_signing PartyType.agent 5) (
      final (
        settle_signature platform
          (completion agent_signing PartyType.agent agent_party 5)
          (world agent_signing PartyType.agent 5)))
    ⊎ (documents_of
          (final (
            settle_signature platform
              (completion agent_signing PartyType.agent agent_party 5)
              (world agent_signing PartyType.agent 5))).db
        ≡ documents_of (world agent_signing PartyType.agent 5).db)
settle_signature-advances_example =
    settle_signature-advances platform (completion agent_signing PartyType.agent agent_party 5)
      (world agent_signing PartyType.agent 5)

reference-injective_example : ◌≡◌ {A = ℕ} 7 7
reference-injective_example = reference-injective [] [] [] 7 7 (omega arith) (omega arith) refl

reference-cuts_example : reference [] [] [] 1000 ≡ reference [] [] [] (1000 / 10)
reference-cuts_example = reference-cuts [] [] [] 1000 (omega arith) (omega arith)

failed :
    (v : World) × (fail_signature 1 "EXPIRED" (world agent_signing PartyType.agent 2) ≡ done tt v)
unfolding signing
failed = (_, refl)

fail_signature-IsFailure_example : IsFailure 1 (world agent_signing PartyType.agent 2) failed.0
fail_signature-IsFailure_example =
    fail_signature-IsFailure 1 "EXPIRED" (world agent_signing PartyType.agent 2) failed.0 failed.1

abbrev wrong_names : Text
wrong_names = b'w' ∷ b'r' ∷ b'o' ∷ b'n' ∷ b'g' ∷ b' ' ∷ b'n' ∷ b'a' ∷ b'm' ∷ b'e' ∷ b's' ∷ []

abbrev rejection : Role → RejectParams
rejection role = record {
  agreement_id = 7;
  reason = wrong_names;
  actor = record { user_id = 11; email = []; roles = role ∷ []; scoped_party_id = none };
}

abbrev no_context : ActionContext
no_context = record { ip_address = none; user_agent = none }

-- The employee's agreement, with its current version.
abbrev reviewed : World
reviewed = record (world pending_employee_signature PartyType.employee 2) {
  db = record ((world pending_employee_signature PartyType.employee 2).db) {
    agreement_versions =
        record {
          id = 2;
          agreement_id = 7;
          version_no = 1;
          signature_state = SignatureState.agent_signed;
          document_hash = 8;
          file_key = parked;
        }
        ∷ [];
  };
}

sent_back :
    (v : World) × (reject_agreement (rejection Role.employee) no_context reviewed ≡ done tt v)
unfolding signing
sent_back = (_, refl)

-- The MD does not reject while the employee's signature is awaited.
out_of_turn :
    (v : World) × (reject_agreement (rejection Role.md) no_context reviewed
      ≡ fail (forbidden (some "FR-015 / DEC-033")) v)
unfolding signing
out_of_turn = (_, refl)

reject_agreement-IsRejection_example : IsRejection (rejection Role.employee) reviewed sent_back.0
reject_agreement-IsRejection_example =
    reject_agreement-IsRejection (rejection Role.employee) no_context reviewed sent_back.0
      sent_back.1

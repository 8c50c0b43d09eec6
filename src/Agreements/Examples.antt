-- ===== src/Agreements/Examples.antt =====
-- A composition of the document of a draft that holds a stamp, a creation, and the theorems applied
-- to them.
use onlineaggrement.Base.{
  ◌≡◌, refl, true, false, not, ◌&&◌, List, [], ◌∷◌, none, some, codes, select, map, first,
  update_where, length, ◌==◌, ℕ_eq, trim,
}
use onlineaggrement.Errors.{ok, validation, conflict}
use onlineaggrement.Database.{World, AgreementRow, AgreementTypeRow, StampAllocationRow, agent}
use onlineaggrement.Service.{
  done, fail, final, ◌>>=◌, ◌>>◌, return, throw, throw_if, branch, or_throw, from_result, query,
  write, current_time, fresh_id, transaction, catch,
}
use onlineaggrement.Audit.{audit_record}
use onlineaggrement.Workflow.States.{AgreementState, AgreementState_eq, ready_for_agent_signature}
use onlineaggrement.Workflow.States
use onlineaggrement.Workflow.Rules.{transitions, permits, lacks_reason, assert_transition}
use onlineaggrement.Workflow
use onlineaggrement.Workflow.Service.{transition_in}
use onlineaggrement.Workflow.Service.Moves.{found}
use onlineaggrement.Documents.{Platform, store}
use onlineaggrement.Documents
use onlineaggrement.Documents.Storage.{
  put_object, get_object, exists_object, link_object, same_key, same_name,
}
use onlineaggrement.Documents.Composing.{Authoring, compose_from_upload}
use onlineaggrement.Stamps.{live_allocation}
use onlineaggrement.Signing.Worlds.{platform, agreement, world}
use onlineaggrement.Signing.Parties.{Principal}
use onlineaggrement.Agreements.Drafts.{ClientContext}
use onlineaggrement.Agreements.Composing.{
  Attachment, ComposedAgreement, assert_draft, stamp_file, read_scan, type_of, holds_stamp,
  assert_stamped, load_stamp_scan, source_row, put_source, generate_transition, compose_in,
  compose_and_generate,
}
use onlineaggrement.Base.{lpad, pad_start, digits, decimal}
use onlineaggrement.Errors.{not_found}
use onlineaggrement.Database.{PartyType}
use onlineaggrement.Signing.Reference.{financial_year}
use onlineaggrement.Agreements.Numbers.{
  next_agreement_number, ensure_number_sequence, agreement_number,
}
use onlineaggrement.Agreements.Parties.{
  PartyInput, all_parties, party_row, same_principal, insert_parties,
}
use onlineaggrement.Agreements.Drafts.{
  CreateAgreementInput, template_for, bank_for, resolve_bank, resolve_employee_signer, draft_row,
  insert_agreement, check_input, settle_signer, settle_agreement, store_agreement, create_in,
  create_agreement,
}
use onlineaggrement.Agreements.Drafts.Creation.{IsCreated, create_agreement-IsCreated}
use onlineaggrement.Agreements.Composing.Readiness.{compose_and_generate-is_ready}

abbrev authoring : Authoring
authoring = record {
  render = λ i. ok [];
  to_pdf = λ b name type. ok b;
  compose = λ b s. ok (record { buffer = b; page_count = length b });
  count_pages = λ b. ok (length b);
}

abbrev type : AgreementTypeRow
type = record {
  id = 1;
  code = codes "SVCAGR";
  is_active = true;
  from_template = false;
  requires_stamp = true;
  external_parties = false;
  accounts_email = none;
  employee_signer_user_id = some 11;
}

abbrev allocation : StampAllocationRow
allocation = record {
  id = 1;
  stamp_paper_id = 2;
  agreement_id = 7;
  allocated_by = 1;
  released_at = none;
  released_reason = none;
}

abbrev drafts : List StampAllocationRow → World
drafts allocations =
    let w = world AgreementState.draft agent 5 in
    record w { db = record w.db { agreement_types = type ∷ []; stamp_allocations = allocations } }

abbrev attachment : Attachment
attachment = record {
  file = 1 ∷ 2 ∷ [];
  filename = "a.pdf";
  content_type = "application/pdf";
  source = "UPLOAD";
  bank_document_id = none;
}

abbrev client : ClientContext
client = record { ip_address = none; user_agent = none }

-- What a test of a composition computes with.
composing : Unit {0}
unfolding Workflow.Service.lock_agreement Workflow.Service.restart_sla Workflow.Service.restarts_sla
    Workflow.Service.sla_deadline Workflow.Service.add_days Workflow.Service.update_agreements
    Workflow.Service.patched Workflow.Service.transition_row Documents.store_version
    Documents.insert_version Documents.is_version Documents.insert_document Documents.object_key
    select ◌>>=◌ ◌>>◌ return throw throw_if branch or_throw from_result query write current_time
    fresh_id transaction catch audit_record transitions permits lacks_reason assert_transition trim
    transition_in store put_object get_object exists_object link_object same_key same_name
    compose_from_upload live_allocation assert_draft stamp_file read_scan type_of assert_stamped
    load_stamp_scan source_row put_source generate_transition compose_in compose_and_generate first
    update_where
composing = tt

abbrev actor : Principal
actor = record { user_id = 11; email = []; roles = States.agent ∷ []; scoped_party_id = none }

abbrev after : World
unfolding composing
after = final (
    compose_and_generate platform authoring (agreement AgreementState.draft) attachment actor client
      (drafts (allocation ∷ [])))

abbrev composed : ComposedAgreement
composed = record { document_hash = 2; page_count = 2; converted_from_word = false; version = 1 }

composed_draft :
    compose_and_generate platform authoring
      (agreement AgreementState.draft)
      attachment
      actor
      client
      (drafts (allocation ∷ []))
    ≡ done composed after
unfolding composing
composed_draft = refl

compose_tests :
    (compose_and_generate platform authoring
        (agreement AgreementState.draft)
        attachment
        actor
        client
        (drafts [])
      ≡ fail validation (drafts []))
    × (compose_and_generate platform authoring
          (agreement ready_for_agent_signature)
          attachment
          actor
          client
          (drafts [])
        ≡ fail (conflict (some "BR-005")) (drafts []))
    × (map (λ s. s.original_filename) after.db.agreement_source_documents ≡ "a.pdf" ∷ [])
unfolding composing
compose_tests = (refl, refl, refl)

compose_and_generate-is_ready_example :
    (((agreement AgreementState.draft).status == AgreementState.draft) ≡ true)
    × ((t : AgreementTypeRow) × (first
            (λ t. t.id == 1)
            (drafts (allocation ∷ [])).db.agreement_types
          ≡ some t)
        × ((t.requires_stamp && not (holds_stamp 7 (drafts (allocation ∷ [])).db)) ≡ false))
    × ((a : AgreementRow) × (found 7 after.db ≡ some a) × (a.status ≡ ready_for_agent_signature))
    × (composed.version ≡ 1)
compose_and_generate-is_ready_example =
    compose_and_generate-is_ready platform authoring (agreement AgreementState.draft) attachment
      actor client (drafts (allocation ∷ [])) after composed composed_draft

abbrev party_input : PartyType → PartyInput
party_input kind = record {
  party_type = kind;
  user_id = none;
  name = codes "P";
  email = codes "p@b";
  mobile = none;
  identity_reference = none;
}

abbrev input : CreateAgreementInput
input = record {
  agreement_type_id = 1;
  template_version_id = none;
  place_of_execution_state = none;
  bank_id = none;
  form = [];
  parties = party_input PartyType.agent ∷ party_input PartyType.md ∷ [];
}

-- What a test of a creation computes with.
creating : Unit {0}
unfolding composing create_agreement settle_agreement check_input settle_signer template_for
    resolve_bank bank_for resolve_employee_signer draft_row insert_agreement create_in
    store_agreement all_parties party_row same_principal insert_parties next_agreement_number
    ensure_number_sequence agreement_number financial_year lpad pad_start digits decimal
creating = tt

created :
    (v : World) × (a : AgreementRow) × (create_agreement platform input actor client (drafts [])
      ≡ done a v)
unfolding creating
created = (_, _, refl)

create_tests :
    (created.1.agreement_number ≡ codes "GTIDS/2026-27/SVCAGR/000001")
    × (map (λ p. p.signing_order) created.0.db.agreement_parties ≡ 1 ∷ 1 ∷ 3 ∷ 2 ∷ [])
    × (create_agreement platform (record input { agreement_type_id = 2 }) actor client (drafts [])
        ≡ fail (not_found "Agreement type") (drafts []))
    × (create_agreement platform (record input { parties = [] }) actor client (drafts [])
        ≡ fail validation (drafts []))
unfolding creating created
create_tests = (refl, refl, refl, refl)

create_agreement-IsCreated_example : IsCreated input (drafts []) created.0 created.1
create_agreement-IsCreated_example =
    create_agreement-IsCreated platform input actor client (drafts []) created.0 created.1 created.2

-- ===== src/Agreements/Generation.antt =====
-- The generation of a document from a template, and what is read of an agreement (generate, get,
-- party and documentUrl of api/src/agreements/agreements.service.ts).
use onlineaggrement.Base.{
  ℕ, ◌&&◌, List, [], ◌∷◌, Option, none, some, Text, first, select, ltb, ◌==◌, ℕ_eq, if◌then◌else◌,
}
use onlineaggrement.Errors.{not_found, other_error}
use onlineaggrement.Database.{
  Db, AgreementRow, AgreementVersionRow, SignatureState, TemplateVersionRow, PartyRow, PartyType,
  StampPaperRow, BankRow, FileKey, num, txt, document_downloaded,
}
use onlineaggrement.Service.{M, ◌>>=◌, ◌>>◌, return, or_throw, query, current_time, transaction}
use onlineaggrement.Audit.{audit_record}
use onlineaggrement.Workflow.States.{WorkflowAction}
use onlineaggrement.Workflow.Rules.{available_actions}
use onlineaggrement.Workflow.Service.{get_agreement, transition_in}
use onlineaggrement.Documents.{Platform, current_version}
use onlineaggrement.Documents.Composing.{Authoring, generate_document}
use onlineaggrement.Stamps.{live_allocation}
use onlineaggrement.Signing.Parties.{Principal}
use onlineaggrement.Agreements.Parties.{is_kind}
use onlineaggrement.Agreements.Drafts.{ClientContext}
use onlineaggrement.Agreements.Editing.{merged}
use onlineaggrement.Agreements.Composing.{
  type_of, assert_stamped, load_stamp_scan, generate_transition,
}

abbrev template_at : Option ℕ → Db → Option TemplateVersionRow
template_at none d = none
template_at (some i) d = first (λ v. v.id == i) d.agreement_template_versions

pub record Generated : Type 0 where
  pub document_hash : ℕ
  pub file_key : FileKey
  pub version : ℕ

module _ (platform : Platform) (authoring : Authoring) where
  -- The number and the time take the place of what the form says of them.
  unfoldable pub generate_in :
      AgreementRow → Text → Principal → ClientContext → Option (List ℕ) → M Generated
  generate_in agreement template_html actor ctx stamp_scan = do
    now ← current_time
    generated ← generate_document platform authoring (record {
      agreement_id = agreement.id;
      agreement_number = agreement.agreement_number;
      version = agreement.current_version;
      template_html = template_html;
      variables =
          merged agreement.form
            (("agreementNumber", txt agreement.agreement_number) ∷ ("generatedAt", num now) ∷ []);
      stamp_scan = stamp_scan;
    })
    row ← transition_in (
        generate_transition agreement actor ctx
          (("documentHash", num generated.document_hash) ∷ []))
    return (record {
      document_hash = generated.document_hash;
      file_key = generated.file_key;
      version = agreement.current_version;
    })

  unfoldable pub generate_agreement : ℕ → Principal → ClientContext → M Generated
  generate_agreement agreement_id actor ctx = do
    agreement ← get_agreement agreement_id
    type ← type_of agreement
    assert_stamped type agreement_id
    row ← query (template_at agreement.template_version_id)
    stamp_scan ← load_stamp_scan agreement_id
    template ← or_throw row (other_error "TypeError")
    transaction (generate_in agreement template.content actor ctx stamp_scan)

-- `.orderBy('signing_order')`
unfoldable pub insert_by_order : PartyRow → List PartyRow → List PartyRow
insert_by_order p [] = p ∷ []
insert_by_order p (q ∷ parties) =
    let rest = insert_by_order p parties in
    if ltb q.signing_order p.signing_order then q ∷ rest else p ∷ q ∷ parties

unfoldable pub by_order : List PartyRow → List PartyRow
by_order [] = []
by_order (p ∷ parties) = insert_by_order p (by_order parties)

abbrev stamp_of : ℕ → Db → Option StampPaperRow
stamp_of agreement_id d = elim (live_allocation agreement_id d) [
  | none ↦ none
  | some a ↦ first (λ p. p.id == a.stamp_paper_id) d.stamp_papers
]

abbrev bank_at : Option ℕ → Db → Option BankRow
bank_at none d = none
bank_at (some i) d = first (λ b. b.id == i) d.banks

pub record AgreementView : Type 0 where
  pub agreement : AgreementRow
  pub parties : List PartyRow
  pub versions : List AgreementVersionRow
  pub stamp : Option StampPaperRow
  pub bank : Option BankRow
  pub actions : List WorkflowAction

unfoldable pub view_agreement : ℕ → Principal → M AgreementView
view_agreement agreement_id actor = do
  row ← query (λ d. first (λ a. a.id == agreement_id) d.agreements)
  agreement ← or_throw row (not_found "Agreement")
  parties ← query (λ d. by_order (select (λ p. p.agreement_id == agreement_id) d.agreement_parties))
  versions ← query (λ d. select (λ v. v.agreement_id == agreement_id) d.agreement_versions)
  stamp ← query (stamp_of agreement_id)
  bank ← query (bank_at agreement.bank_id)
  return (record {
    agreement = agreement;
    parties = parties;
    versions = versions;
    stamp = stamp;
    bank = bank;
    actions = available_actions agreement.status actor.roles;
  })

unfoldable pub party_of_kind : ℕ → PartyType → M PartyRow
party_of_kind agreement_id kind =
    query (λ d.
      first (λ p. p.agreement_id == agreement_id && is_kind p.party_type kind) d.agreement_parties)
    >>= λ row. or_throw row (not_found "party for agreement")

pub record Download : Type 0 where
  pub url : Text
  pub document_hash : ℕ
  pub signature_state : SignatureState

-- The link to a file is a parameter.
unfoldable pub document_url : (FileKey → ℕ → Text) → ℕ → Principal → ClientContext → M Download
document_url signed_url agreement_id actor ctx = do
  agreement ← get_agreement agreement_id
  version ← current_version agreement_id agreement.current_version
  now ← current_time
  audit_record document_downloaded (("documentHash", num version.document_hash) ∷ []) (record {
    agreement_id = some agreement_id;
    agreement_version = some agreement.current_version;
    actor_id = some actor.user_id;
    ip_address = ctx.ip_address;
    user_agent = ctx.user_agent;
  })
  return (record {
    url = signed_url version.file_key now;
    document_hash = version.document_hash;
    signature_state = version.signature_state;
  })

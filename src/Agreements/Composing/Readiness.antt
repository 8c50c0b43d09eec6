-- ===== src/Agreements/Composing/Readiness.antt =====
-- A composed agreement awaits the agent (composeAndGenerate of
-- api/src/agreements/agreements.service.ts).
use onlineaggrement.Base.{
  ℕ, ◌≡◌, sym, ap, ◌∙◌, Bool, true, false, not, ◌&&◌, List, Option, some, first, ◌==◌, ℕ_eq, arith,
}
use onlineaggrement.Errors.{validation}
use onlineaggrement.Database.{World, AgreementRow, AgreementTypeRow}
use onlineaggrement.Service.{
  done, >>=-inverse, >>-inverse, query, transaction-done, transaction-inverse,
}
use onlineaggrement.Service.Inverse.{
  throw_if-inverse, return-inverse, query-inverse, or_throw-inverse,
}
use onlineaggrement.Workflow.States.{AgreementState, AgreementState_eq, ready_for_agent_signature}
use onlineaggrement.Workflow.Rules.{transitions}
use onlineaggrement.Workflow.Service.{transition, transition_in}
use onlineaggrement.Workflow.Service.Moves.{found}
use onlineaggrement.Workflow.Service.Laws.{transition-IsMove}
use onlineaggrement.Documents.{Platform}
use onlineaggrement.Documents.Composing.{Authoring, compose_from_upload}
use onlineaggrement.Signing.Parties.{Principal}
use onlineaggrement.Agreements.Drafts.{ClientContext}
use onlineaggrement.Agreements.Composing.{
  Attachment, ComposedAgreement, assert_draft, type_of, holds_stamp, assert_stamped,
  load_stamp_scan, put_source, generate_transition, compose_in, compose_and_generate,
}

not-false : {b : Bool} → not b ≡ false → b ≡ true
not-false h = ground arith

assert_stamped-inverse :
    (type : AgreementTypeRow) (id : ℕ) (w v : World) {u : Unit {0}}
    → assert_stamped type id w ≡ done u v
    → (type.requires_stamp && not (holds_stamp id w.db)) ≡ false
unfolding assert_stamped
assert_stamped-inverse type id w v h =
    let (held, w1, e1, k1) = >>=-inverse (query (holds_stamp id)) _ h in
    ap (λ b. type.requires_stamp && not b) (query-inverse (holds_stamp id) e1).0
    ∙ (throw_if-inverse (type.requires_stamp && not held) validation k1).0

type_of-inverse :
    (agreement : AgreementRow) (w v : World) (type : AgreementTypeRow)
    → type_of agreement w ≡ done type v
    → (first (λ t. t.id == agreement.agreement_type_id) w.db.agreement_types ≡ some type) × (w ≡ v)
unfolding type_of
type_of-inverse agreement w v type h =
    let (row, w1, e1, k1) = >>=-inverse (query _) _ h in
    let (at, same) = query-inverse _ e1 in
    let (there, same') = or_throw-inverse row _ k1 in (at ∙ there, same ∙ same')

module _ (platform : Platform) (authoring : Authoring) (agreement : AgreementRow)
    (attachment : Attachment) (actor : Principal) (ctx : ClientContext) where
  compose_in-inverse :
      (scan : Option (List ℕ)) (w v : World) (r : ComposedAgreement)
      → compose_in platform authoring agreement attachment actor ctx scan w ≡ done r v
      → (a : AgreementRow) × (found agreement.id v.db ≡ some a)
        × (a.status ≡ ready_for_agent_signature)
        × (r.version ≡ agreement.current_version)
  unfolding compose_in transition transitions generate_transition
  compose_in-inverse scan w v r h =
      let (composed, w1, e1, k1) = >>=-inverse (compose_from_upload platform authoring _) _ h in
      let (t, w2, e2, k2) = >>-inverse (put_source _) _ k1 in
      let (a, w3, e3, k3) = >>=-inverse (transition_in _) _ k2 in
      let (same, there) = return-inverse k3 in
      let move = transition-IsMove _ w2 w3 a (transaction-done (transition_in _) e3) in
      (
        a,
        ap (λ x. found agreement.id x.db) (sym there) ∙ move.stored,
        move.status,
        sym (ap (λ x. x.version) same),
      )

  -- A composition that returns was of a draft, whose type needs no stamp or which held one, and leaves the
  -- stored agreement at READY_FOR_AGENT_SIGNATURE; it returns the version of the agreement.
  pub compose_and_generate-is_ready :
      (w v : World) (r : ComposedAgreement)
      → compose_and_generate platform authoring agreement attachment actor ctx w ≡ done r v
      → ((agreement.status == AgreementState.draft) ≡ true)
        × ((type : AgreementTypeRow) × (first
                (λ t. t.id == agreement.agreement_type_id)
                w.db.agreement_types
              ≡ some type)
            × ((type.requires_stamp && not (holds_stamp agreement.id w.db)) ≡ false))
        × ((a : AgreementRow) × (found agreement.id v.db ≡ some a)
            × (a.status ≡ ready_for_agent_signature))
        × (r.version ≡ agreement.current_version)
  unfolding compose_and_generate assert_draft
  compose_and_generate-is_ready w v r h =
      let (t, w1, e1, k1) = >>-inverse (assert_draft agreement "BR-005") _ h in
      let (type, w2, e2, k2) = >>=-inverse (type_of agreement) _ k1 in
      let (u, w3, e3, k3) = >>-inverse (assert_stamped type agreement.id) _ k2 in
      let (scan, w4, e4, k4) = >>=-inverse (load_stamp_scan agreement.id) _ k3 in
      let (is_draft, same) = throw_if-inverse _ _ e1 in
      let (there, same') = type_of-inverse agreement w1 w2 type e2 in
      let (a, stored, ready, version) = compose_in-inverse scan w4 v r (
        transaction-inverse (compose_in platform authoring agreement attachment actor ctx scan)
          k4) in
      (
        not-false is_draft,
        (
          type,
          ap (λ x. first (λ t. t.id == agreement.agreement_type_id) x.db.agreement_types) same
              ∙ there,
          ap (λ x. type.requires_stamp && not (holds_stamp agreement.id x.db)) (same ∙ same')
              ∙ assert_stamped-inverse type agreement.id w2 w3 e3,
        ),
        (a, stored, ready),
        version,
      )

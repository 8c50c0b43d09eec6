-- ===== src/History/Moves.antt =====
-- The history, for a transition (WorkflowService of api/src/workflow/workflow.service.ts).
use onlineaggrement.Base.{
  ℕ, ◌≡◌, refl, sym, ap, ◌∙◌, subst, [], ◌∷◌, some, Option-cases, Bool-cases, inl, inr, nat_eq,
  nat_eq_iff, arith,
}
use onlineaggrement.Errors.{ok, Result-cases}
use onlineaggrement.Database.{World, AgreementRow, violates}
use onlineaggrement.Service.{final}
use onlineaggrement.Service.Keeps.{Keeps}
use onlineaggrement.Workflow.Traces.{run}
use onlineaggrement.Workflow.Rules.{TransitionOutcome, assert_transition}
use onlineaggrement.Workflow.Service.{TransitionRequest, transition_in, patched}
use onlineaggrement.Workflow.Service.Moves.{
  found, deadline, moved_db, transition_in-absent, transition_in-refused, transition_in-moved,
  transition_in-violated,
}
use onlineaggrement.Workflow.Service.Laws.{IsMove, moved-IsMove}
use onlineaggrement.History.{Reaches, Grows-refl, Follows, Follows-IsPreorder}

some_cancel : {x y : AgreementRow} → some x ≡ some y → x ≡ y
some_cancel h = cc

module _ (req : TransitionRequest) (w w' : World) (r : AgreementRow) (m : IsMove req w w' r) where
  IsMove-moves :
      (i : ℕ) (a : AgreementRow)
      → found i w.db ≡ some a
      → (b : AgreementRow) × (found i w'.db ≡ some b) × Reaches a.status b.status
  unfolding run
  IsMove-moves i a h = elim (Bool-cases (nat_eq i req.agreement_id)) [
    | inl same ↦
        let at = (nat_eq_iff i req.agreement_id).0 same in
        let old : m.old ≡ a = some_cancel (sym m.was ∙ ap (λ j. found j w.db) (sym at) ∙ h) in
        (
          r,
          ap (λ j. found j w'.db) at ∙ m.stored,
          (
            req.action ∷ [],
            subst (λ x. run x.status (req.action ∷ []) ≡ some r.status) old
                (ground (arith, m.allowed.leaves, m.status)),
          ),
        )
    | inr apart ↦ (a, m.others i (λ e. ground arith) ∙ h, ([], refl))
  ]

module _ (req : TransitionRequest) (w : World) where
  moved_db-Follows :
      (a : AgreementRow) (o : TransitionOutcome)
      → found req.agreement_id w.db ≡ some a
      → assert_transition a.status req.action req.actor_roles req.reason ≡ ok o
      → Follows w.db (moved_db req o w a)
  moved_db-Follows a o h g = record {
    audit = (_, refl);
    log = (_, refl);
    versions = Grows-refl w.db.agreement_versions;
    documents = Grows-refl w.db.agreement_documents;
    signatures = Grows-refl w.db.signature_events;
    moves =
        IsMove-moves req w (record w { db = moved_db req o w a })
          (patched req o w.now (deadline req o w a) a) (moved-IsMove req w a o h g);
  }

  transition_in-Follows : Follows w.db (final (transition_in req w)).db
  transition_in-Follows = elim (Option-cases (found req.agreement_id w.db)) [
    | inl absent ↦ rw (transition_in-absent req w absent) (Follows-IsPreorder.same w.db)
    | inr (a, h) ↦
        elim (Result-cases (assert_transition a.status req.action req.actor_roles req.reason)) [
          | inl (o, g) ↦ elim (Bool-cases (violates (patched req o w.now (deadline req o w a) a))) [
            | inl bad ↦ rw (transition_in-violated req w a o h g bad) (Follows-IsPreorder.same w.db)
            | inr fine ↦ rw (transition_in-moved req w a o h g fine) (moved_db-Follows a o h g)
          ]
          | inr (x, g) ↦ rw (transition_in-refused req w a x h g) (Follows-IsPreorder.same w.db)
        ]
  ]

pub transition_in-Keeps : (req : TransitionRequest) → Keeps Follows (transition_in req)
transition_in-Keeps req = record { kept = transition_in-Follows req }

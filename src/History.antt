-- ===== src/History.antt =====
-- The history that a database keeps: logs, document versions, documents and signature events, and
-- the states of the agreements (api/src/workflow/state-machine.ts).
pub mod Moves
pub mod Steps
pub mod Documents
pub mod Signing
pub mod Recovery
pub mod Drafts
pub mod Composing
pub mod Emails
pub mod Administration
use onlineaggrement.Base.{
  ℕ, ◌≡◌, refl, sym, ap, ◌∙◌, List, [], ◌∷◌, ◌++◌, Option, none, some, Bool-cases, inl, inr, Bool,
  true, false, includes, arith,
}
use onlineaggrement.Database.{Db, World, AgreementRow}
use onlineaggrement.Service.{M, write, query}
use onlineaggrement.Service.Keeps.{IsPreorder, Keeps, Keeps-write}
use onlineaggrement.Workflow.States.{AgreementState, AgreementState_eq, WorkflowAction}
use onlineaggrement.Workflow.Rules.{transitions}
use onlineaggrement.Workflow.Traces.{run}
use onlineaggrement.Workflow.Service.Moves.{found}

-- The one list begins with the other.
abbrev pub Grows : {A : Type 0} → List A → List A → Type 0
Grows {A} xs ys = (rest : List A) × (ys ≡ xs ++ rest)

-- A sequence of actions leads from the one state to the other.
abbrev pub Reaches : AgreementState → AgreementState → Type 0
Reaches s t = (acts : List WorkflowAction) × (run s acts ≡ some t)

append-nil : {A : Type 0} (xs : List A) → xs ++ [] ≡ xs
append-nil [] = refl
append-nil (x ∷ xs) = ap (λ l. x ∷ l) (append-nil xs)

append_assoc : {A : Type 0} (xs ys zs : List A) → (xs ++ ys) ++ zs ≡ xs ++ (ys ++ zs)
append_assoc [] ys zs = refl
append_assoc (x ∷ xs) ys zs = ap (λ l. x ∷ l) (append_assoc xs ys zs)

module _ {A : Type 0} where
  pub Grows-refl : (xs : List A) → Grows xs xs
  Grows-refl xs = ([], sym (append-nil xs))

  pub Grows-trans : (xs ys zs : List A) → Grows xs ys → Grows ys zs → Grows xs zs
  Grows-trans xs ys zs (r, e) (s, f) = (r ++ s, f ∙ ap (λ l. l ++ s) e ∙ append_assoc xs r s)

pub run-append :
    (s t u : AgreementState) (xs ys : List WorkflowAction)
    → run s xs ≡ some t
    → run t ys ≡ some u
    → run s (xs ++ ys) ≡ some u
unfolding run
run-append s t u [] ys h k = cc
run-append s t u (a ∷ xs) ys h k = elim (Bool-cases (includes (transitions a).sources s)) [
  | inl leaves ↦
      rw (leaves, run) (run-append (transitions a).target t u xs ys (rw (leaves, run) at h) k)
  | inr stays ↦ cc (rw (stays, run) at h)
]

pub record Follows (d d' : Db) : Type 0 where
  pub audit : Grows d.audit_logs d'.audit_logs
  pub log : Grows d.workflow_transitions d'.workflow_transitions
  pub versions : Grows d.agreement_versions d'.agreement_versions
  pub documents : Grows d.agreement_documents d'.agreement_documents
  pub signatures : Grows d.signature_events d'.signature_events
  pub moves :
      (i : ℕ) (a : AgreementRow)
      → found i d ≡ some a
      → (b : AgreementRow) × (found i d' ≡ some b) × Reaches a.status b.status

Follows-refl : (d : Db) → Follows d d
unfolding run
Follows-refl d = record {
  audit = Grows-refl d.audit_logs;
  log = Grows-refl d.workflow_transitions;
  versions = Grows-refl d.agreement_versions;
  documents = Grows-refl d.agreement_documents;
  signatures = Grows-refl d.signature_events;
  moves = λ i a h. (a, h, ([], refl));
}

Follows-trans : {d d' d'' : Db} → Follows d d' → Follows d' d'' → Follows d d''
Follows-trans f g = record {
  audit = Grows-trans _ _ _ f.audit g.audit;
  log = Grows-trans _ _ _ f.log g.log;
  versions = Grows-trans _ _ _ f.versions g.versions;
  documents = Grows-trans _ _ _ f.documents g.documents;
  signatures = Grows-trans _ _ _ f.signatures g.signatures;
  moves = λ i a h.
      let (b, k, (xs, e)) = f.moves i a h in
      let (c, l, (ys, e')) = g.moves i b k in
      (c, l, (xs ++ ys, run-append a.status b.status c.status xs ys e e'));
}

pub Follows-IsPreorder : IsPreorder Follows
Follows-IsPreorder = record { same = Follows-refl; follow = Follows-trans }

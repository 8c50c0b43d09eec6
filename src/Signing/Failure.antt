-- ===== src/Signing/Failure.antt =====
-- The failure of a signature (failSignature and the catch clause of completeSignature in
-- api/src/signing/signing.service.ts), and the tables of documents.
use onlineaggrement.Base.{
  ℕ, ◌≡◌, sym, ap, ◌∙◌, subst, ◌⊎◌, inl, inr, List, Option, none, some, String, ℕ_eq, Option-cases,
  Bool-cases,
}
use onlineaggrement.Errors.{
  DomainError, signature_integrity, not_found, forbidden, invalid_transition, conflict,
  stale_document, validation, other_error, Result-cases,
}
use onlineaggrement.Database.{
  Db, World, AgreementRow, violates, AgreementVersionRow, DocumentRow, EsignTransactionRow,
}
use onlineaggrement.Service.{
  M, final, return, ◌>>=◌, ◌>>◌, transaction-inverse, transaction-restores, Outcome-cases,
  catch-done, catch-fail, >>-done, >>-fail, transaction, query, or_throw, throw, write,
  current_time,
}
use onlineaggrement.Service.Keeps.{
  Keeps, Keeps->>=, Keeps->>, Keeps-return, Keeps-throw, Keeps-or_throw, Keeps-query, Keeps-write,
  Keeps-current_time, Keeps-transaction,
}
use onlineaggrement.Service.Unchanged.{Unchanged, Unchanged-IsPreorder}
use onlineaggrement.Audit.{audit_record}
use onlineaggrement.Workflow.States.{AgreementState_eq}
use onlineaggrement.Workflow.Rules.{SigningParty, assert_transition}
use onlineaggrement.Workflow.Service.{TransitionRequest, patched, transition_in, get_agreement}
use onlineaggrement.Workflow.Service.Moves.{
  found, transition_in-absent, transition_in-refused, transition_in-moved, transition_in-violated,
  deadline,
}
use onlineaggrement.Documents.{Platform}
use onlineaggrement.Esign.{get_transaction, mark_failed, record_integrity_alert}
use onlineaggrement.Signing.Parties.{party_by_id}
use onlineaggrement.Signing.Ceremony.{add_signature_event, fail_agreement, fail_in, fail_signature}
use onlineaggrement.Signing.Completion.{
  Completion, apply_signature, handle_failure, settle_signature,
}
use onlineaggrement.Signing.Advances.{IsAdvance, apply_signature-IsAdvance}

-- The documents and their versions.
abbrev pub documents_of : Db → List AgreementVersionRow × List DocumentRow
documents_of d = (d.agreement_versions, d.agreement_documents)

-- The method stores no document.
abbrev pub IsPaperless : {A : Type 0} → M A → Type 0
IsPaperless m = Keeps (Unchanged documents_of) m

transition_in-IsPaperless : (req : TransitionRequest) → IsPaperless (transition_in req)
transition_in-IsPaperless req = record {
  kept = λ w. elim (Option-cases (found req.agreement_id w.db)) [
    | inl absent ↦ ap (λ o. documents_of (final o).db) (transition_in-absent req w absent)
    | inr (a, h) ↦
        elim (Result-cases (assert_transition a.status req.action req.actor_roles req.reason)) [
          | inl (o, g) ↦ elim (Bool-cases (violates (patched req o w.now (deadline req o w a) a))) [
            | inl bad ↦
                ap (λ o. documents_of (final o).db) (transition_in-violated req w a o h g bad)
            | inr fine ↦
                ap (λ o. documents_of (final o).db) (transition_in-moved req w a o h g fine)
          ]
          | inr (x, g) ↦ ap (λ o. documents_of (final o).db) (transition_in-refused req w a x h g)
        ]
  ];
}

module _ {A B : Type 0} where
  IsPaperless->>= :
      {m : M A} {f : A → M B}
      → IsPaperless m
      → ((a : A) → IsPaperless (f a))
      → IsPaperless (m >>= f)
  IsPaperless->>= = Keeps->>= (Unchanged-IsPreorder documents_of)

  IsPaperless->> : {m : M A} {k : M B} → IsPaperless m → IsPaperless k → IsPaperless (m >> k)
  IsPaperless->> = Keeps->> (Unchanged-IsPreorder documents_of)

module _ {A : Type 0} where
  IsPaperless-return : (a : A) → IsPaperless (return a)
  IsPaperless-return = Keeps-return (Unchanged-IsPreorder documents_of)

  IsPaperless-or_throw : (o : Option A) (e : DomainError) → IsPaperless (or_throw o e)
  IsPaperless-or_throw = Keeps-or_throw (Unchanged-IsPreorder documents_of)

  IsPaperless-query : (f : Db → A) → IsPaperless (query f)
  IsPaperless-query = Keeps-query (Unchanged-IsPreorder documents_of)

  IsPaperless-throw : (e : DomainError) → IsPaperless (throw {A = A} e)
  IsPaperless-throw = Keeps-throw (Unchanged-IsPreorder documents_of)

  IsPaperless-transaction : {m : M A} → IsPaperless m → IsPaperless (transaction m)
  IsPaperless-transaction = Keeps-transaction (Unchanged-IsPreorder documents_of)

IsPaperless-write :
    (f : Db → Db) → ((d : Db) → documents_of (f d) ≡ documents_of d) → IsPaperless (write f)
IsPaperless-write = Keeps-write (Unchanged-IsPreorder documents_of)

IsPaperless-current_time : IsPaperless current_time
IsPaperless-current_time = Keeps-current_time (Unchanged-IsPreorder documents_of)

ruleset paperless = (
  IsPaperless->>=, IsPaperless->>, IsPaperless-return, IsPaperless-or_throw, IsPaperless-query,
  IsPaperless-throw, IsPaperless-transaction, IsPaperless-write, IsPaperless-current_time,
  transition_in-IsPaperless,
)

fail_agreement-IsPaperless :
    (a : AgreementRow) (t : EsignTransactionRow) (code : String) (signer : Option SigningParty)
    → IsPaperless (fail_agreement a t code signer)
unfolding fail_agreement
fail_agreement-IsPaperless a t code none = IsPaperless-return tt
fail_agreement-IsPaperless a t code (some signer) = search paperless

fail_in-IsPaperless :
    (a : AgreementRow) (t : EsignTransactionRow) (party_id : ℕ) (code : String)
    → IsPaperless (fail_in a t party_id code)
unfolding fail_in mark_failed add_signature_event
fail_in-IsPaperless a t party_id code = search (paperless, fail_agreement-IsPaperless) depth 40

pub fail_signature-IsPaperless : (i : ℕ) (code : String) → IsPaperless (fail_signature i code)
unfolding fail_signature get_transaction get_agreement party_by_id
fail_signature-IsPaperless i code = search (paperless, fail_in-IsPaperless) depth 40

module _ (platform : Platform) (c : Completion) where
  handle_failure-IsPaperless : (e : DomainError) → IsPaperless (handle_failure platform c e)
  unfolding handle_failure record_integrity_alert audit_record
  handle_failure-IsPaperless signature_integrity =
      search (paperless, fail_signature-IsPaperless) depth 40
  handle_failure-IsPaperless (not_found what) = IsPaperless-throw _
  handle_failure-IsPaperless (forbidden rule) = IsPaperless-throw _
  handle_failure-IsPaperless (invalid_transition src dst rule) = IsPaperless-throw _
  handle_failure-IsPaperless (conflict rule) = IsPaperless-throw _
  handle_failure-IsPaperless (stale_document a b) = IsPaperless-throw _
  handle_failure-IsPaperless validation = IsPaperless-throw _
  handle_failure-IsPaperless (other_error what) = IsPaperless-throw _

  -- Settling a signature either advances the agreement from the signing state of the party, or
  -- leaves the documents and their versions as they were, whether it then returns or throws.
  pub settle_signature-advances :
      (w : World)
      → IsAdvance c.agreement.id c.field w (final (settle_signature platform c w))
        ⊎ (documents_of (final (settle_signature platform c w)).db ≡ documents_of w.db)
  unfolding settle_signature return
  settle_signature-advances w = elim (Outcome-cases (transaction (apply_signature platform c) w)) [
    | inl (s, v, e) ↦ inl (
        subst (IsAdvance c.agreement.id c.field w)
          (ap final (sym (catch-done _ (handle_failure platform c) (>>-done _ _ e))))
          (apply_signature-IsAdvance platform c w v s (transaction-inverse _ e)))
    | inr (x, v, e) ↦ inr (
        ap (λ o. documents_of (final o).db)
          (catch-fail _ (handle_failure platform c) (>>-fail _ _ e))
        ∙ (handle_failure-IsPaperless x).kept v
        ∙ ap documents_of (transaction-restores _ w v e))
  ]

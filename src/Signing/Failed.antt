-- ===== src/Signing/Failed.antt =====
-- The agreement before and after a failed signature (failSignature of
-- api/src/signing/signing.service.ts).
use onlineaggrement.Base.{
  ℕ, ◌≡◌, refl, sym, ap, ◌∙◌, inl, inr, ◌⊎◌, Option, none, some, String, first, ◌==◌, ℕ_eq,
  Option-cases, Bool-cases,
}
use onlineaggrement.Database.{Db, World, AgreementRow, EsignTransactionRow}
use onlineaggrement.Service.{
  done, return, done-injective, done-ne-fail, >>=-inverse, >>-inverse, transaction-inverse,
  query-done, or_throw-some, or_throw-none, >>=-done,
}
use onlineaggrement.Service.Unchanged.{Keeps-done}
use onlineaggrement.Workflow.States.{
  AgreementState, AgreementState_eq, agent_signing, employee_signing, md_signing, signature_failed,
}
use onlineaggrement.Workflow.Rules.{
  transitions, SigningParty, agent_party, employee_party, md_party,
}
use onlineaggrement.Workflow.Service.Moves.{found}
use onlineaggrement.Esign.{get_transaction}
use onlineaggrement.Signing.Parties.{party_at, signing_party}
use onlineaggrement.Signing.Ceremony.{fail_signature, fail_in, fail_agreement, fail_transition}
use onlineaggrement.Signing.Effects.{
  agreements_of, add_signature_event-IsQuiet, mark_failed-IsQuiet, party_by_id-IsQuiet,
}
use onlineaggrement.Signing.Advances.{transition_in-IsMove, found-unchanged}
use onlineaggrement.Signing.Outcomes.{get_agreement-inverse, found_id_of}

abbrev pub transaction_at : ℕ → Db → Option EsignTransactionRow
transaction_at i d = first (λ t. t.id == i) d.esign_transactions

get_transaction-inverse :
    (i : ℕ) (w v : World) (t : EsignTransactionRow)
    → get_transaction i w ≡ done t v
    → (v ≡ w) × (transaction_at i w.db ≡ some t)
unfolding get_transaction
get_transaction-inverse i w v t h = elim (Option-cases (transaction_at i w.db)) [
  | inl absent ↦
      absurd (done-ne-fail (sym h ∙ >>=-done _ _ (query-done _) ∙ or_throw-none _ absent))
  | inr (b, e) ↦
      let (row, world) =
        done-injective (sym (>>=-done _ _ (query-done _) ∙ or_throw-some _ e) ∙ h) in
      (sym world, e ∙ ap some row)
]

abbrev IsFailed : Option SigningParty → AgreementRow → AgreementRow → Type 0
IsFailed none before after = after ≡ before
IsFailed (some signer) before after = after.status ≡ signature_failed

fails_to :
    (signer : SigningParty) → (transitions (signing_party signer).fail).target ≡ signature_failed
unfolding transitions
fails_to agent_party = refl
fails_to employee_party = refl
fails_to md_party = refl

fail_agreement-IsFailed :
    (a before : AgreementRow) (t : EsignTransactionRow) (code : String)
    (signer : Option SigningParty) (w v : World)
    → found a.id w.db ≡ some before
    → fail_agreement a t code signer w ≡ done tt v
    → (after : AgreementRow) × (found a.id v.db ≡ some after) × IsFailed signer before after
unfolding fail_agreement fail_transition return
fail_agreement-IsFailed a before t code none w v h e =
    let (_, same) = done-injective e in (before, ap (λ x. found a.id x.db) (sym same) ∙ h, refl)
fail_agreement-IsFailed a before t code (some signer) w v h e =
    let (r, u, e1, h1) = >>-inverse _ _ e in
    let (_, same) = done-injective h1 in
    let move = transition_in-IsMove _ w u r e1 in
    (r, ap (λ x. found a.id x.db) (sym same) ∙ move.stored, move.status ∙ fails_to signer)

-- A party was signing, and the agreement has failed; or no party was, and it is as it was.
abbrev pub IsSigning : AgreementState → Type 0
IsSigning s = (s ≡ agent_signing) ⊎ (s ≡ employee_signing) ⊎ (s ≡ md_signing)

abbrev pub IsClosed : AgreementRow → AgreementRow → Type 0
IsClosed before after =
    (IsSigning before.status → after.status ≡ signature_failed)
    × (¬ IsSigning before.status → after ≡ before)

IsSigning-party_at : (s : AgreementState) → IsSigning s → (p : SigningParty) × (party_at s ≡ some p)
unfolding party_at
IsSigning-party_at s (inl e) = (agent_party, ap party_at e)
IsSigning-party_at s (inr (inl e)) = (employee_party, ap party_at e)
IsSigning-party_at s (inr (inr e)) = (md_party, ap party_at e)

party_at-IsSigning : (s : AgreementState) (p : SigningParty) → party_at s ≡ some p → IsSigning s
unfolding party_at
party_at-IsSigning s p h = elim (Bool-cases (s == agent_signing)) [
  | inl e ↦ inl ((AgreementState_eq.beq_iff s agent_signing).0 e)
  | inr f ↦ elim (Bool-cases (s == employee_signing)) [
    | inl e ↦ inr (inl ((AgreementState_eq.beq_iff s employee_signing).0 e))
    | inr g ↦ elim (Bool-cases (s == md_signing)) [
      | inl e ↦ inr (inr ((AgreementState_eq.beq_iff s md_signing).0 e))
      | inr k ↦ absurd (nobody (rw (f, g, k) at h))
    ]
  ]
]
  where
    nobody : none ≡ some p → ⊥
    nobody e = cc

IsFailed-IsClosed :
    (before after : AgreementRow) (o : Option SigningParty)
    → party_at before.status ≡ o
    → IsFailed o before after
    → IsClosed before after
IsFailed-IsClosed before after none e h = (
  λ k. let (p, is) = IsSigning-party_at before.status k in absurd (nobody p (sym e ∙ is)),
  λ k. h,
)
  where
    nobody : (p : SigningParty) → none ≡ some p → ⊥
    nobody p x = cc
IsFailed-IsClosed before after (some p) e h =
    (λ k. h, λ k. absurd (k (party_at-IsSigning before.status p e)))

-- A signature failed between two worlds.
pub record IsFailure (transaction_id : ℕ) (w v : World) : Type 0 where
  pub transaction : EsignTransactionRow
  pub registered : transaction_at transaction_id w.db ≡ some transaction
  pub before : AgreementRow
  pub was : found transaction.agreement_id w.db ≡ some before
  pub after : AgreementRow
  pub is : found transaction.agreement_id v.db ≡ some after
  pub failed : IsClosed before after

-- A failure that returns has found the transaction and its agreement; if the agreement was in
-- AGENT_SIGNING, EMPLOYEE_SIGNING or MD_SIGNING it is SIGNATURE_FAILED afterwards, and otherwise it
-- is as it was.
pub fail_signature-IsFailure :
    (transaction_id : ℕ) (code : String) (w v : World)
    → fail_signature transaction_id code w ≡ done tt v
    → IsFailure transaction_id w v
unfolding fail_signature fail_in
fail_signature-IsFailure transaction_id code w v h =
    let (t, w1, e1, h1) = >>=-inverse _ _ h in
    let (same1, registered) = get_transaction-inverse transaction_id w w1 t e1 in
    let (a, w2, e2, h2) = >>=-inverse _ _ h1 in
    let (same2, here) = get_agreement-inverse t.agreement_id w1 w2 a e2 in
    let (row, w3, e3, h3) = >>=-inverse _ _ h2 in
    let (_, w4, e4, h4) = >>-inverse _ _ (transaction-inverse _ h3) in
    let (_, w5, e5, h5) = >>-inverse _ _ h4 in
    let at = found_id_of t.agreement_id w1.db a here in
    let quiet =
      Keeps-done agreements_of _ (add_signature_event-IsQuiet _) e5
      ∙ Keeps-done agreements_of _ (mark_failed-IsQuiet _ _ _) e4
      ∙ Keeps-done agreements_of _ (party_by_id-IsQuiet _) e3
      ∙ ap (λ x. agreements_of x.db) same2 in
    let (after, is, failed) =
      fail_agreement-IsFailed a a t code (party_at a.status) w5 v
        (found-unchanged w1.db w5.db a.id quiet ∙ ap (λ i. found i w1.db) at ∙ here) h5 in
    record {
      transaction = t;
      registered = registered;
      before = a;
      was = ap (λ x. found t.agreement_id x.db) (sym same1) ∙ here;
      after = after;
      is = ap (λ i. found i v.db) (sym at) ∙ is;
      failed = IsFailed-IsClosed a after (party_at a.status) refl failed;
    }

-- ===== src/History/Drafts.antt =====
-- The history, for the creation and the editing of drafts
-- (api/src/agreements/agreements.service.ts).
use onlineaggrement.Base.{
  ℕ, ◌≡◌, refl, sym, ap, List, [], ◌∷◌, Option, none, some, String, Text, first, update_where, ◌==◌,
  ℕ_eq, nat_eq, Bool-cases, inl, inr, first-insert, arith,
}
use onlineaggrement.Database.{AgreementRow, AgreementTypeRow, Datum}
use onlineaggrement.Service.Keeps.{Keeps, Keeps-write}
use onlineaggrement.Workflow.Traces.{run}
use onlineaggrement.Documents.{Platform}
use onlineaggrement.Signing.Parties.{Principal}
use onlineaggrement.Agreements.Numbers.{next_agreement_number, ensure_number_sequence}
use onlineaggrement.Agreements.Parties.{PartyInput, insert_parties}
use onlineaggrement.Agreements.Drafts.{
  CreateAgreementInput, ClientContext, Settled, insert_agreement, store_agreement, create_in,
  create_agreement, settle_agreement, settle_signer, check_input, template_for, approved_version,
  assert_template_variables, resolve_bank, bank_for, bank_or_throw, resolve_employee_signer,
}
use onlineaggrement.Agreements.Editing.{DraftPatch, check_patch, edited, edit_in, update_draft}
use onlineaggrement.History.{Grows-refl, Follows, Follows-IsPreorder}
use onlineaggrement.History.Steps.{
  steps, write-apart, get_agreement-Keeps, Follows->>=, Follows->>, Follows-query, Follows-throw_if,
  Follows-fresh_id, Follows-current_time,
}

bank_or_throw-Keeps : (id : ℕ) → Keeps Follows (bank_or_throw id)
unfolding bank_or_throw
bank_or_throw-Keeps id = search steps depth 40

bank_for-Keeps : (own requested : Option ℕ) → Keeps Follows (bank_for own requested)
unfolding bank_for
bank_for-Keeps (some own) requested = search (steps, bank_or_throw-Keeps) depth 40
bank_for-Keeps none none = search steps
bank_for-Keeps none (some id) = search (steps, bank_or_throw-Keeps) depth 40

assert_template_variables-Keeps :
    (required : List Text) (form : List (String × Datum))
    → Keeps Follows (assert_template_variables required form)
unfolding assert_template_variables
assert_template_variables-Keeps required form = search steps

approved_version-Keeps :
    (input : CreateAgreementInput) (id : Option ℕ) → Keeps Follows (approved_version input id)
unfolding approved_version
approved_version-Keeps input none = search steps
approved_version-Keeps input (some id) = search (steps, assert_template_variables-Keeps) depth 40

insert_agreement-Keeps : (a : AgreementRow) → Keeps Follows (insert_agreement a)
unfolding insert_agreement run
insert_agreement-Keeps a = Follows->>= (Follows-query _) λ taken.
    Follows->> (Follows-throw_if taken _) (
      Keeps-write Follows-IsPreorder _ λ d. record {
        audit = Grows-refl d.audit_logs;
        log = Grows-refl d.workflow_transitions;
        versions = Grows-refl d.agreement_versions;
        documents = Grows-refl d.agreement_documents;
        signatures = Grows-refl d.signature_events;
        moves = λ i b k. (b, first-insert (λ r. r.id == i) d.agreements a b k, ([], refl));
      })

insert_parties-Keeps :
    (i : ℕ) (parties : List PartyInput) → Keeps Follows (insert_parties i parties)
unfolding insert_parties
insert_parties-Keeps i [] = search steps
insert_parties-Keeps i (p ∷ parties) = Follows->>= Follows-fresh_id λ id.
    Follows->>= (Follows-query _) λ taken.
      Follows->> (Follows-throw_if taken _)
        (Follows->> (search write-apart) (insert_parties-Keeps i parties))

next_agreement_number-Keeps : (fy code : Text) → Keeps Follows (next_agreement_number fy code)
unfolding next_agreement_number ensure_number_sequence
next_agreement_number-Keeps fy code = search (steps, write-apart) depth 40

module _ (platform : Platform) (input : CreateAgreementInput) (actor : Principal) where
  check_input-Keeps :
      (type : AgreementTypeRow) → Keeps Follows (check_input platform input actor type)
  unfolding check_input template_for
  check_input-Keeps type = search (steps, approved_version-Keeps) depth 60

  settle_agreement-Keeps : Keeps Follows (settle_agreement platform input actor)
  unfolding settle_agreement settle_signer resolve_bank resolve_employee_signer
  settle_agreement-Keeps = search (steps, check_input-Keeps, bank_for-Keeps) depth 60

  create_in-Keeps :
      (ctx : ClientContext) (s : Settled) → Keeps Follows (create_in platform input actor ctx s)
  unfolding create_in store_agreement
  create_in-Keeps ctx s =
      search (steps, next_agreement_number-Keeps, insert_agreement-Keeps, insert_parties-Keeps)
        depth 60

  pub create_agreement-Keeps :
      (ctx : ClientContext) → Keeps Follows (create_agreement platform input actor ctx)
  unfolding create_agreement
  create_agreement-Keeps ctx = search (steps, settle_agreement-Keeps, create_in-Keeps) depth 40

check_patch-Keeps :
    (a : AgreementRow) (form : Option (List (String × Datum))) → Keeps Follows (check_patch a form)
unfolding check_patch
check_patch-Keeps a none = search steps
check_patch-Keeps a (some form) = search (steps, assert_template_variables-Keeps) depth 40

-- An edit leaves the identifiers and the states.
first-edit :
    (i j : ℕ) (a : AgreementRow) (patch : DraftPatch) (now : ℕ) (rows : List AgreementRow)
    (b : AgreementRow)
    → first (λ r. r.id == i) rows ≡ some b
    → (c : AgreementRow) × (first
          (λ r. r.id == i)
          (update_where (λ r. r.id == j) (edited a patch now) rows)
        ≡ some c)
      × (c.status ≡ b.status)
unfolding first update_where edited
first-edit i j a patch now [] b h = cc
first-edit i j a patch now (r ∷ rows) b h = elim (Bool-cases (nat_eq r.id i)) [
  | inl t ↦ elim (Bool-cases (nat_eq r.id j)) [
    | inl u ↦ (edited a patch now r, ground (arith, t, u), ground (arith, t, h))
    | inr u ↦ (r, ground (arith, t, u), ground (arith, t, h))
  ]
  | inr t ↦
      let (c, e, same) = first-edit i j a patch now rows b (ground (arith, t, h)) in
      elim (Bool-cases (nat_eq r.id j)) [
        | inl u ↦ (c, ground (arith, t, u, e), same)
        | inr u ↦ (c, ground (arith, t, u, e), same)
      ]
]

edit_in-Keeps :
    (actor : Principal) (ctx : ClientContext) (a : AgreementRow) (patch : DraftPatch)
    → Keeps Follows (edit_in actor ctx a patch)
unfolding edit_in run
edit_in-Keeps actor ctx a patch = Follows->>= Follows-current_time λ now.
    Follows->>= (Follows-query _) λ rows.
      Follows->>
        (Keeps-write Follows-IsPreorder _ λ d. record {
          audit = Grows-refl d.audit_logs;
          log = Grows-refl d.workflow_transitions;
          versions = Grows-refl d.agreement_versions;
          documents = Grows-refl d.agreement_documents;
          signatures = Grows-refl d.signature_events;
          moves = λ i b k.
              let (c, e, same) = first-edit i a.id a patch now d.agreements b k in
              (c, e, ([], ap some (sym same)));
        })
        (search steps)

pub update_draft-Keeps :
    (i : ℕ) (patch : DraftPatch) (actor : Principal) (ctx : ClientContext)
    → Keeps Follows (update_draft i patch actor ctx)
unfolding update_draft
update_draft-Keeps i patch actor ctx =
    search (steps, get_agreement-Keeps, check_patch-Keeps, edit_in-Keeps) depth 40

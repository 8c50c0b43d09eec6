-- ===== src/Agreements/Drafts/Settling.antt =====
-- The checks before a creation (create, resolveBank and resolveEmployeeSigner of
-- api/src/agreements/agreements.service.ts).
use onlineaggrement.Base.{
  ℕ, ◌≡◌, sym, ap, ◌∙◌, Bool, true, false, not, Option, some, none, first, ◌==◌, ℕ_eq, Text_eq,
  arith,
}
use onlineaggrement.Errors.{not_found, validation}
use onlineaggrement.Database.{Db, World, AgreementTypeRow, TemplateVersionRow, agent, md, employee}
use onlineaggrement.Service.{done, >>=-inverse, >>-inverse, query, throw_if, or_throw}
use onlineaggrement.Service.Inverse.{
  throw_if-inverse, return-inverse, query-inverse, or_throw-inverse,
}
use onlineaggrement.Service.Keeps.{
  Keeps, Keeps->>=, Keeps->>, Keeps-query, Keeps-return, Keeps-throw, Keeps-throw_if,
  Keeps-or_throw, Keeps-branch,
}
use onlineaggrement.Service.Unchanged.{Unchanged, Unchanged-IsPreorder, Keeps-done}
use onlineaggrement.Documents.{Platform}
use onlineaggrement.Signing.Parties.{Principal}
use onlineaggrement.Agreements.Parties.{has_party}
use onlineaggrement.Agreements.Drafts.{
  CreateAgreementInput, Settled, assert_template_variables, approved_version, template_for,
  bank_or_throw, bank_for, resolve_bank, designated, active_user, resolve_employee_signer,
  check_input, settle_signer, settle_agreement,
}

ruleset reads = (
  Unchanged-IsPreorder, Keeps->>=, Keeps->>, Keeps-query, Keeps-return, Keeps-throw, Keeps-throw_if,
  Keeps-or_throw, Keeps-branch,
)

module _ {X : Type 0} (part : Db → X) where
  bank_or_throw-Keeps : (id : ℕ) → Keeps (Unchanged part) (bank_or_throw id)
  unfolding bank_or_throw
  bank_or_throw-Keeps id = search reads depth 40

  bank_for-Keeps : (own requested : Option ℕ) → Keeps (Unchanged part) (bank_for own requested)
  unfolding bank_for
  bank_for-Keeps (some own) requested = search (reads, bank_or_throw-Keeps) depth 40
  bank_for-Keeps none none = search reads depth 40
  bank_for-Keeps none (some id) = search (reads, bank_or_throw-Keeps) depth 40

  resolve_bank-Keeps :
      (requested : Option ℕ) (actor : Principal)
      → Keeps (Unchanged part) (resolve_bank requested actor)
  unfolding resolve_bank
  resolve_bank-Keeps requested actor = search (reads, bank_for-Keeps) depth 40

  approved_version-Keeps :
      (input : CreateAgreementInput) (id : Option ℕ)
      → Keeps (Unchanged part) (approved_version input id)
  unfolding approved_version assert_template_variables
  approved_version-Keeps input none = search reads depth 40
  approved_version-Keeps input (some id) = search reads depth 40

  template_for-Keeps :
      (type : AgreementTypeRow) (input : CreateAgreementInput)
      → Keeps (Unchanged part) (template_for type input)
  unfolding template_for
  template_for-Keeps type input = search (reads, approved_version-Keeps) depth 40

not-false : {b : Bool} → not b ≡ false → b ≡ true
not-false h = ground arith

-- What the checks before a creation found in the database.
pub record IsSettled (input : CreateAgreementInput) (d : Db) (s : Settled) : Type 0 where
  pub of_type : first (λ t. t.id == input.agreement_type_id) d.agreement_types ≡ some s.type
  pub active : s.type.is_active ≡ true
  pub has_agent : has_party agent input.parties ≡ true
  pub has_md : has_party md input.parties ≡ true
  pub no_employee : has_party employee input.parties ≡ false
  -- The countersigner is the one designated by the bank, or by the type where there is no bank.
  pub signer : active_user (designated s.bank s.type) d ≡ some s.signer

module _ (platform : Platform) (input : CreateAgreementInput) (actor : Principal) where
  check_input-inverse :
      (type : AgreementTypeRow) (w v : World) (template : Option TemplateVersionRow)
      → check_input platform input actor type w ≡ done template v
      → (type.is_active ≡ true)
        × (has_party agent input.parties ≡ true)
        × (has_party md input.parties ≡ true)
        × (has_party employee input.parties ≡ false)
        × (v.db ≡ w.db)
  unfolding check_input
  check_input-inverse type w v template h =
      let (t1, w1, e1, k1) = >>-inverse (throw_if (not type.is_active) validation) _ h in
      let (found, w2, e2, k2) = >>=-inverse (template_for type input) _ k1 in
      let (t3, w3, e3, k3) =
        >>-inverse (throw_if (not (has_party agent input.parties)) validation) _ k2 in
      let (t4, w4, e4, k4) =
        >>-inverse (throw_if (not (has_party md input.parties)) validation) _ k3 in
      let (t5, w5, e5, k5) =
        >>-inverse (throw_if (has_party employee input.parties) validation) _ k4 in
      let (active, p1) = throw_if-inverse (not type.is_active) _ e1 in
      let (has_agent, p3) = throw_if-inverse (not (has_party agent input.parties)) _ e3 in
      let (has_md, p4) = throw_if-inverse (not (has_party md input.parties)) _ e4 in
      let (no_employee, p5) = throw_if-inverse (has_party employee input.parties) _ e5 in
      (
        not-false active,
        not-false has_agent,
        not-false has_md,
        no_employee,
        ap (λ x. x.db) (sym (p3 ∙ p4 ∙ p5 ∙ (return-inverse k5).1))
            ∙ Keeps-done (λ d. d) (template_for type input) (template_for-Keeps (λ d. d) type input)
                e2
            ∙ ap (λ x. x.db) (sym p1),
      )

  settle_signer-inverse :
      (type : AgreementTypeRow) (template : Option TemplateVersionRow) (w v : World) (s : Settled)
      → settle_signer platform input actor type template w ≡ done s v
      → (s.type ≡ type)
        × (active_user (designated s.bank s.type) w.db ≡ some s.signer)
        × (v.db ≡ w.db)
  unfolding settle_signer resolve_employee_signer
  settle_signer-inverse type template w v s h =
      let (bank, w1, e1, k1) = >>=-inverse (resolve_bank input.bank_id actor) _ h in
      let (signer, w2, e2, k2) = >>=-inverse (resolve_employee_signer bank type) _ k1 in
      let (same, end) = return-inverse k2 in
      let (user, u, e3, k3) = >>=-inverse (query _) _ e2 in
      let (chosen, p3) = query-inverse _ e3 in
      let (there, p4) = or_throw-inverse user _ k3 in
      let before =
        Keeps-done (λ d. d) (resolve_bank input.bank_id actor)
          (resolve_bank-Keeps (λ d. d) input.bank_id actor) e1 in
      (
        sym (ap (λ x. x.type) same),
        ap (λ x. active_user (designated x.bank x.type) w.db) (sym same)
            ∙ ap (active_user (designated bank type)) (sym before)
            ∙ chosen
            ∙ there
            ∙ ap (λ x. some x.signer) same,
        ap (λ x. x.db) (sym (p3 ∙ p4 ∙ end)) ∙ before,
      )

  pub settle_agreement-inverse :
      (w v : World) (s : Settled)
      → settle_agreement platform input actor w ≡ done s v
      → IsSettled input w.db s × (v.db ≡ w.db)
  unfolding settle_agreement
  settle_agreement-inverse w v s h =
      let (row, w1, e1, k1) = >>=-inverse (query _) _ h in
      let (type, w2, e2, k2) = >>=-inverse (or_throw row (not_found "Agreement type")) _ k1 in
      let (template, w3, e3, k3) = >>=-inverse (check_input platform input actor type) _ k2 in
      let (at, p1) = query-inverse _ e1 in
      let (hit, p2) = or_throw-inverse row _ e2 in
      let (active, has_agent, has_md, no_employee, same) =
        check_input-inverse type w2 w3 template e3 in
      let (kept, signer, same') = settle_signer-inverse type template w3 v s k3 in
      let start : w2.db ≡ w.db = ap (λ x. x.db) (sym (p1 ∙ p2)) in
      (
        record {
          of_type = at ∙ hit ∙ ap some (sym kept);
          active = ap (λ t. t.is_active) kept ∙ active;
          has_agent = has_agent;
          has_md = has_md;
          no_employee = no_employee;
          signer = ap (active_user (designated s.bank s.type)) (sym (same ∙ start)) ∙ signer;
        },
        same' ∙ same ∙ start,
      )

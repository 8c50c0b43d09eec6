-- ===== src/Agreements/Editing.antt =====
-- The editing of a draft (updateDraft of api/src/agreements/agreements.service.ts).
use onlineaggrement.Base.{
  ℕ, suc, true, not, List, [], ◌∷◌, Option, none, some, String, Text_eq, String_eq, first, select,
  update_where, map, ◌==◌, ℕ_eq, if◌then◌else◌,
}
use onlineaggrement.Errors.{conflict, other_error}
use onlineaggrement.Database.{AgreementRow, Datum, str, num, agreement_corrected}
use onlineaggrement.Service.{
  M, ◌>>=◌, ◌>>◌, return, throw_if, or_throw, query, write, current_time, transaction,
}
use onlineaggrement.Audit.{audit_record}
use onlineaggrement.Workflow.States.{AgreementState, AgreementState_eq}
use onlineaggrement.Workflow.Service.{get_agreement}
use onlineaggrement.Signing.Parties.{Principal}
use onlineaggrement.Agreements.Drafts.{ClientContext, assert_template_variables}

pub record DraftPatch : Type 0 where
  pub form : Option (List (String × Datum))
  pub place_of_execution_state : Option String

-- `{ ...form, ...patch }`
unfoldable pub set_datum : String → Datum → List (String × Datum) → List (String × Datum)
set_datum key value [] = (key, value) ∷ []
set_datum key value ((k, v) ∷ form) =
    let rest = set_datum key value form in if k == key then (k, value) ∷ form else (k, v) ∷ rest

unfoldable pub merged : List (String × Datum) → List (String × Datum) → List (String × Datum)
merged form [] = form
merged form ((k, v) ∷ patch) = merged (set_datum k v form) patch

abbrev patch_of : Option (List (String × Datum)) → List (String × Datum)
patch_of none = []
patch_of (some form) = form

-- The version is read only if the patch has data; of an agreement without one it is undefined.
unfoldable pub check_patch : AgreementRow → Option (List (String × Datum)) → M (Unit {0})
check_patch agreement none = return tt
check_patch agreement (some form) = do
  row ← query (λ d. elim agreement.template_version_id [
    | none ↦ none
    | some i ↦ first (λ v. v.id == i) d.agreement_template_versions
  ])
  version ← or_throw row (other_error "TypeError")
  assert_template_variables version.required (merged agreement.form form)

abbrev place_after : Option String → Option String → Option String
place_after none old = old
place_after (some place) old = if place == "" then old else some place

unfoldable pub edited : AgreementRow → DraftPatch → ℕ → AgreementRow → AgreementRow
edited agreement patch now r = record r {
  form = merged agreement.form (patch_of patch.form);
  place_of_execution_state = place_after patch.place_of_execution_state r.place_of_execution_state;
  row_version = suc agreement.row_version;
  updated_at = now;
}

abbrev key_data : List (String × Datum) → List (String × Datum)
key_data [] = []
key_data ((k, v) ∷ form) = ("changedKey", str k) ∷ key_data form

unfoldable pub edit_in : Principal → ClientContext → AgreementRow → DraftPatch → M AgreementRow
edit_in actor ctx agreement patch = do
  now ← current_time
  rows ← query (λ d. select (λ r. r.id == agreement.id) d.agreements)
  write (λ d. record d {
    agreements = update_where (λ r. r.id == agreement.id) (edited agreement patch now) d.agreements;
  })
  audit_record agreement_corrected
      (("version", num agreement.current_version) ∷ key_data (patch_of patch.form))
      (record {
        agreement_id = some agreement.id;
        agreement_version = some agreement.current_version;
        actor_id = some actor.user_id;
        ip_address = ctx.ip_address;
        user_agent = ctx.user_agent;
      })
  -- The row was read before, so that it is there.
  or_throw (first (λ r. true) (map (edited agreement patch now) rows)) (other_error "TypeError")

unfoldable pub update_draft : ℕ → DraftPatch → Principal → ClientContext → M AgreementRow
update_draft agreement_id patch actor ctx = do
  agreement ← get_agreement agreement_id
  throw_if (not (agreement.status == AgreementState.draft)) (conflict (some "BR-005"))
  check_patch agreement patch.form
  transaction (edit_in actor ctx agreement patch)

-- ===== src/Workflow/Corrections.antt =====
-- WorkflowService.correct and transitionChain of api/src/workflow/workflow.service.ts.
pub mod Laws
use onlineaggrement.Base.{
  ℕ, suc, Bool, true, false, not, ◌&&◌, ◌||◌, List, [], ◌∷◌, Option, none, some, String, select,
  length, update_where, insert, ◌==◌, ℕ_eq,
}
use onlineaggrement.Errors.{other_error}
use onlineaggrement.Database.{
  Db, AgreementRow, AgreementVersionRow, SignatureState, unsigned, VersionHistoryRow,
  EsignTransactionRow, EsignStatus, initiated, pending_signer, cancelled, num, status, user,
  agreement_corrected,
}
use onlineaggrement.Service.{M, ◌>>=◌, ◌>>◌, return, throw, query, write, current_time, transaction}
use onlineaggrement.Workflow.States.{Role, correct}
use onlineaggrement.Workflow.Service.{
  Patch, no_patch, TransitionRequest, lock_agreement, transition_in,
}

pub record CorrectRequest : Type 0 where
  pub agreement_id : ℕ
  pub actor_id : ℕ
  pub actor_roles : List Role
  pub ip_address : Option String
  pub user_agent : Option String

abbrev pub is_unsigned : SignatureState → Bool
is_unsigned unsigned = true
is_unsigned _ = false

abbrev pub is_open : EsignStatus → Bool
is_open initiated = true
is_open pending_signer = true
is_open _ = false

-- A signed document on the version that is being closed.
unfoldable pub is_voided : AgreementRow → AgreementVersionRow → Bool
is_voided agreement v =
    v.agreement_id == agreement.id
    && v.version_no == agreement.current_version
    && not (is_unsigned v.signature_state)

unfoldable pub voided_count : AgreementRow → Db → ℕ
voided_count agreement d = length (select (is_voided agreement) d.agreement_versions)

unfoldable pub history_row : AgreementRow → ℕ → VersionHistoryRow
history_row agreement voided = record {
  agreement_id = agreement.id;
  version_no = agreement.current_version;
  status_at_close = agreement.status;
  rejection_reason = agreement.rejected_reason;
  superseded_by_version = suc agreement.current_version;
  voided_signature_count = voided;
}

-- An open signing transaction on the version that is being closed.
unfoldable pub is_dead : AgreementRow → EsignTransactionRow → Bool
is_dead agreement t =
    t.agreement_id == agreement.id
    && t.agreement_version == agreement.current_version
    && is_open t.status

unfoldable pub kill : ℕ → EsignTransactionRow → EsignTransactionRow
kill now t = record t { status = cancelled; completed_at = some now }

unfoldable pub correct_transition : CorrectRequest → AgreementRow → ℕ → TransitionRequest
correct_transition req agreement voided = record {
  agreement_id = agreement.id;
  action = correct;
  actor_id = some req.actor_id;
  actor_roles = req.actor_roles;
  trigger = user;
  reason = none;
  audit_event = some agreement_corrected;
  audit_data =
      ("closedVersion", num agreement.current_version)
      ∷ ("newVersion", num (suc agreement.current_version))
      ∷ ("voidedSignatures", num voided)
      ∷ ("closedFromStatus", status agreement.status)
      ∷ [];
  ip_address = req.ip_address;
  user_agent = req.user_agent;
  patch = record no_patch {
    current_version = some (suc agreement.current_version);
    rejected_reason = some none;
    rejected_by = some none;
    rejected_at = some none;
    expires_at = some none;
  };
}

unfoldable pub correct_agreement : CorrectRequest → M AgreementRow
correct_agreement req = transaction do
  agreement ← lock_agreement req.agreement_id
  voided ← query (voided_count agreement)
  write λ d. record d {
    agreement_version_history = insert (history_row agreement voided) d.agreement_version_history;
  }
  now ← current_time
  write λ d. record d {
    esign_transactions = update_where (is_dead agreement) (kill now) d.esign_transactions;
  }
  transition_in (correct_transition req agreement voided)

-- The transitions of a chain commit together. `last!` of an empty chain is not a row.
unfoldable pub chain_from : TransitionRequest → List TransitionRequest → M AgreementRow
chain_from req [] = transition_in req
chain_from req (next ∷ reqs) = transition_in req >>= λ _. chain_from next reqs

unfoldable pub transition_chain_in : List TransitionRequest → M AgreementRow
unfolding chain_from
transition_chain_in [] = throw (other_error "no transition")
transition_chain_in (req ∷ reqs) = chain_from req reqs

unfoldable pub transition_chain : List TransitionRequest → M AgreementRow
transition_chain reqs = transaction (transition_chain_in reqs)

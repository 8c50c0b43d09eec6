-- ===== src/Workflow/States.antt =====
-- The states, actions and roles of api/src/workflow/state-machine.ts. Each type has the position
-- of a value in its list, by which two values are compared.
use onlineaggrement.Base.{
  ℕ, ◌≡◌, refl, sym, ap, ◌∙◌, true, List, [], ◌∷◌, some, get_elem?, ◌↔◌, Eq, nat_eq, nat_eq_iff,
}

pub data AgreementState : Type 0 where
  draft ready_for_agent_signature agent_signing agent_signed : AgreementState
  pending_employee_approval employee_approving employee_approved : AgreementState
  pending_employee_signature employee_signing employee_signed : AgreementState
  pending_md_signature md_signing completed : AgreementState
  rejected cancelled expired signature_failed : AgreementState

abbrev pub agreement_states : List AgreementState
agreement_states =
    draft ∷ ready_for_agent_signature ∷ agent_signing ∷ agent_signed ∷ pending_employee_approval
    ∷ employee_approving ∷ employee_approved ∷ pending_employee_signature ∷ employee_signing
    ∷ employee_signed ∷ pending_md_signature ∷ md_signing ∷ completed ∷ rejected ∷ cancelled
    ∷ expired ∷ signature_failed ∷ []

pub data WorkflowAction : Type 0 where
  generate agent_sign_initiate agent_sign_succeed agent_sign_fail : WorkflowAction
  advance_to_employee : WorkflowAction
  employee_sign_initiate employee_sign_succeed employee_sign_fail : WorkflowAction
  advance_to_md md_sign_initiate md_sign_succeed md_sign_fail : WorkflowAction
  retry_agent_signature retry_employee_signature retry_md_signature : WorkflowAction
  reject employee_reject cancel expire correct : WorkflowAction

abbrev pub workflow_actions : List WorkflowAction
workflow_actions =
    generate ∷ agent_sign_initiate ∷ agent_sign_succeed ∷ agent_sign_fail ∷ advance_to_employee
    ∷ employee_sign_initiate ∷ employee_sign_succeed ∷ employee_sign_fail ∷ advance_to_md
    ∷ md_sign_initiate ∷ md_sign_succeed ∷ md_sign_fail ∷ retry_agent_signature
    ∷ retry_employee_signature ∷ retry_md_signature ∷ reject ∷ employee_reject ∷ cancel ∷ expire
    ∷ correct ∷ []

pub data Role : Type 0 where
  super_admin agreement_admin agent employee md md_delegate auditor system : Role

abbrev roles_list : List Role
roles_list =
    super_admin ∷ agreement_admin ∷ agent ∷ employee ∷ md ∷ md_delegate ∷ auditor ∷ system ∷ []

abbrev state_index : AgreementState → ℕ
state_index draft = 0
state_index ready_for_agent_signature = 1
state_index agent_signing = 2
state_index agent_signed = 3
state_index pending_employee_approval = 4
state_index employee_approving = 5
state_index employee_approved = 6
state_index pending_employee_signature = 7
state_index employee_signing = 8
state_index employee_signed = 9
state_index pending_md_signature = 10
state_index md_signing = 11
state_index completed = 12
state_index rejected = 13
state_index cancelled = 14
state_index expired = 15
state_index signature_failed = 16

abbrev action_index : WorkflowAction → ℕ
action_index generate = 0
action_index agent_sign_initiate = 1
action_index agent_sign_succeed = 2
action_index agent_sign_fail = 3
action_index advance_to_employee = 4
action_index employee_sign_initiate = 5
action_index employee_sign_succeed = 6
action_index employee_sign_fail = 7
action_index advance_to_md = 8
action_index md_sign_initiate = 9
action_index md_sign_succeed = 10
action_index md_sign_fail = 11
action_index retry_agent_signature = 12
action_index retry_employee_signature = 13
action_index retry_md_signature = 14
action_index reject = 15
action_index employee_reject = 16
action_index cancel = 17
action_index expire = 18
action_index correct = 19

abbrev role_index : Role → ℕ
role_index super_admin = 0
role_index agreement_admin = 1
role_index agent = 2
role_index employee = 3
role_index md = 4
role_index md_delegate = 5
role_index auditor = 6
role_index system = 7

get_elem?-state_index : (s : AgreementState) → get_elem? agreement_states (state_index s) ≡ some s
get_elem?-state_index draft = refl
get_elem?-state_index _ = refl

get_elem?-role_index : (r : Role) → get_elem? roles_list (role_index r) ≡ some r
get_elem?-role_index super_admin = refl
get_elem?-role_index _ = refl

get_elem?-action_index : (a : WorkflowAction) → get_elem? workflow_actions (action_index a) ≡ some a
get_elem?-action_index generate = refl
get_elem?-action_index _ = refl

some_cancel : {A : Type 0} {a b : A} → some a ≡ some b → a ≡ b
some_cancel h = cc

-- Values whose positions in a list are the same are the same.
index_injective :
    {A : Type 0} (l : List A) (index : A → ℕ)
    → ((a : A) → get_elem? l (index a) ≡ some a)
    → (a b : A) → (nat_eq (index a) (index b) ≡ true) ↔ (a ≡ b)
index_injective l index at a b = (
  λ h. some_cancel (sym (at a) ∙ ap (get_elem? l) ((nat_eq_iff (index a) (index b)).0 h) ∙ at b),
  λ e. (nat_eq_iff (index a) (index b)).1 (ap index e),
)

pub state_eq_iff :
    (a b : AgreementState) → (nat_eq (state_index a) (state_index b) ≡ true) ↔ (a ≡ b)
state_eq_iff = index_injective agreement_states state_index get_elem?-state_index

pub role_eq_iff : (a b : Role) → (nat_eq (role_index a) (role_index b) ≡ true) ↔ (a ≡ b)
role_eq_iff = index_injective roles_list role_index get_elem?-role_index

instance abbrev pub AgreementState_eq : Eq AgreementState
AgreementState_eq = record {
  beq = λ a b. nat_eq (state_index a) (state_index b);
  beq_iff = state_eq_iff;
}

pub action_eq_iff :
    (a b : WorkflowAction) → (nat_eq (action_index a) (action_index b) ≡ true) ↔ (a ≡ b)
action_eq_iff = index_injective workflow_actions action_index get_elem?-action_index

instance abbrev pub WorkflowAction_eq : Eq WorkflowAction
WorkflowAction_eq = record {
  beq = λ a b. nat_eq (action_index a) (action_index b);
  beq_iff = action_eq_iff;
}

instance abbrev pub Role_eq : Eq Role
Role_eq = record { beq = λ a b. nat_eq (role_index a) (role_index b); beq_iff = role_eq_iff }

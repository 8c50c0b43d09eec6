-- ===== src/Database/Admin.antt =====
-- The rows of the tables that administrators keep: users, roles, banks, agreement types, templates
-- and stamp identifiers (api/migrations).
use onlineaggrement.Base.{ℕ, Bool, List, Option, String, Text, Text_eq, to_lower_case, ◌==◌}
use onlineaggrement.Workflow.States.{Role}
use onlineaggrement.Database.Types.{FileKey, IdentifierKind, UserType, TemplateStatus}

pub record UserRow : Type 0 where
  pub id : ℕ
  pub email : Text
  pub full_name : Text
  pub mobile : Option Text
  pub password_hash : Option Text
  pub user_type : UserType
  pub is_active : Bool
  pub bank_id : Option ℕ
  pub agent_code : Option Text
  pub failed_login_count : ℕ
  pub locked_until : Option ℕ
  pub last_login_at : Option ℕ

-- A comparison of the column `users.email`, of type citext: the case of letters does not count.
abbrev pub same_email : Text → Text → Bool
same_email a b = to_lower_case a == to_lower_case b

-- A role stands for its row in `roles`.
pub record UserRoleRow : Type 0 where
  pub user_id : ℕ
  pub role : Role

pub record MdDelegationRow : Type 0 where
  pub delegate_user_id : ℕ
  pub valid_from : ℕ
  pub valid_to : ℕ
  pub revoked_at : Option ℕ

pub record PartyAccessTokenRow : Type 0 where
  pub agreement_id : ℕ
  pub party_id : ℕ
  pub token_hash : ℕ
  pub expires_at : ℕ
  pub used_at : Option ℕ
  pub issued_to_ip : Option String
  pub issued_by : ℕ

pub record BankRow : Type 0 where
  pub id : ℕ
  pub code : Text
  pub name : Text
  pub contact_email : Option Text
  pub contact_person : Option Text
  pub employee_signer_user_id : Option ℕ
  pub is_active : Bool

pub record BankDocumentRow : Type 0 where
  pub id : ℕ
  pub bank_id : ℕ
  pub version_no : ℕ
  pub original_filename : String
  pub original_content_type : String
  pub file_key : FileKey
  pub file_hash : ℕ
  pub converted_file_key : Option FileKey
  pub converted_hash : ℕ
  pub page_count : ℕ
  pub is_active : Bool

-- `from_template` is the document source TEMPLATE.
pub record AgreementTypeRow : Type 0 where
  pub id : ℕ
  pub code : Text
  pub is_active : Bool
  pub from_template : Bool
  pub requires_stamp : Bool
  pub external_parties : Bool
  pub accounts_email : Option Text
  pub employee_signer_user_id : Option ℕ

pub record TemplateRow : Type 0 where
  pub id : ℕ
  pub agreement_type_id : ℕ
  pub name : Text

-- `required` is the list of that name in `variables_schema`.
pub record TemplateVersionRow : Type 0 where
  pub id : ℕ
  pub template_id : ℕ
  pub version_no : ℕ
  pub content : Text
  pub required : List Text
  pub status : TemplateStatus
  pub created_by : ℕ
  pub approved_by : Option ℕ
  pub approved_at : Option ℕ

pub record AgreementNumberRow : Type 0 where
  pub financial_year : Text
  pub type_code : Text
  pub next_value : ℕ

pub record SourceDocumentRow : Type 0 where
  pub agreement_id : ℕ
  pub agreement_version : ℕ
  pub original_filename : String
  pub original_content_type : String
  pub original_file_key : FileKey
  pub original_hash : ℕ
  pub page_count : ℕ
  pub uploaded_by : ℕ

pub record StampIdentifierRow : Type 0 where
  pub stamp_paper_id : ℕ
  pub kind : IdentifierKind
  pub value : Text
  pub normalized : Text

-- ===== src/Signing/Worlds.antt =====
-- A concrete platform and worlds of agreements that are being signed
-- (api/src/signing/signing.service.ts).
use onlineaggrement.Base.{true, codes, ℕ, ℕ_eq, false, [], ◌∷◌, ◌++◌, none, some, length}
use onlineaggrement.Errors.{ok}
use onlineaggrement.Database.{
  UserType, World, empty_db, AgreementRow, PartyType, PartyRow, EsignTransactionRow, EsignStatus,
  FileKey, pending_file,
}
use onlineaggrement.Workflow.States.{AgreementState}
use onlineaggrement.Workflow.Rules.{SigningParty}
use onlineaggrement.Documents.{Platform}
use onlineaggrement.Signing.Completion.{Completion}

-- A digest is a length, a slot covers the whole document, and a signature is put at its end.
abbrev pub platform : Platform
platform = record {
  sha256 = length;
  year = λ now. 2026;
  month = λ now. 4;
  random_bytes = λ n. 7 ∷ 255 ∷ [];
  prepare = ok;
  prepare_slot = λ field appearance bytes. ok (record { buffer = bytes; signed_content = bytes });
  reopen_slot = λ bytes. ok (record { buffer = bytes; signed_content = bytes });
  embed = λ slot der. ok (slot.buffer ++ der);
  verify = λ bytes. ok 0;
  assert_integrity = λ bytes n. ok n;
}

abbrev pub agreement : AgreementState → AgreementRow
agreement s = record {
  id = 7;
  agreement_number = codes "GTIDS/2026-27/SVCAGR/000025";
  agreement_type_id = 1;
  template_version_id = none;
  status = s;
  current_version = 1;
  row_version = 3;
  place_of_execution_state = none;
  form = [];
  bank_id = none;
  created_by = 1;
  updated_at = 0;
  stamped = true;
  external_parties = false;
  expires_at = none;
  execution_reference = none;
  verification_token = none;
  completed_at = none;
  rejected_reason = none;
  rejected_by = none;
  rejected_at = none;
}

abbrev pub signer : PartyType → PartyRow
signer kind = record {
  id = 3;
  agreement_id = 7;
  party_type = kind;
  user_id = some 11;
  name = codes "A";
  email = b'a' ∷ b'@' ∷ b'b' ∷ [];
  mobile = none;
  identity_reference = none;
  signing_order = 1;
  acted = false;
}

abbrev pub parked : FileKey
parked = record {
  agreement_number = codes "A";
  version = 1;
  year = 2026;
  month = 4;
  name = pending_file PartyType.agent 2;
}

abbrev pub ceremony : (digest : ℕ) → EsignTransactionRow
ceremony digest = record {
  id = 1;
  agreement_id = 7;
  party_id = 3;
  agreement_version = 1;
  provider = "mock";
  provider_transaction_id = "t1";
  byte_range_digest = some digest;
  document_hash = 8;
  pending_file_key = some parked;
  status = EsignStatus.pending_signer;
  attempt_no = 1;
  failure_code = none;
  initiated_at = 0;
  completed_at = none;
}

abbrev pub world : AgreementState → PartyType → (digest : ℕ) → World
world s kind digest = record {
  db = record empty_db {
    agreements = agreement s ∷ [];
    agreement_parties = signer kind ∷ [];
    esign_transactions = ceremony digest ∷ [];
    users =
        record {
          id = 11;
          email = [];
          full_name = [];
          mobile = none;
          password_hash = none;
          user_type = UserType.internal;
          is_active = true;
          bank_id = none;
          agent_code = some (b'x' ∷ b'1' ∷ []);
          failed_login_count = 0;
          locked_until = none;
          last_login_at = none;
        }
        ∷ [];
  };
  objects = (parked, 80 ∷ 68 ∷ []) ∷ [];
  now = 1000;
  next_id = 50;
}

abbrev pub completion : AgreementState → PartyType → SigningParty → (digest : ℕ) → Completion
completion s kind field digest = record {
  agreement = agreement s;
  transaction = ceremony digest;
  party = signer kind;
  field = field;
  der = 9 ∷ [];
}

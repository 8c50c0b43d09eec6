-- ===== src/Pdf/Verifier.antt =====
-- The verification of signatures (api/src/documents/pdf/verifier.ts). The reading of CMS by
-- node-forge is a parameter, and so is SHA-256.
use onlineaggrement.Base.{
  ℕ, suc, ◌+◌, Bool, true, false, not, ◌&&◌, List, [], ◌∷◌, ◌++◌, Option, none, some, Text, length,
  ltb, nat_eq, if◌then◌else◌, String, ◌==◌, Text_eq,
}
use onlineaggrement.Errors.{Result, ok, err}
use onlineaggrement.Pdf.Patterns.{ByteRange}
use onlineaggrement.Pdf.Objects.{◌>>=◌, ◌>>◌, error_if}
use onlineaggrement.Pdf.Fields.{PdfSignatureSlot, find_signatures}
use onlineaggrement.Pdf.Slots.{content_of}
use onlineaggrement.Pdf.Der.{extract_der}

pub data Attribute : Type 0 where
  message_digest : Text → Attribute
  signing_time : ℕ → Attribute
  other_attribute : Attribute

-- The first signer of a CMS structure, with its attributes, if it has them.
pub record Cms : Type 0 where
  pub signer : Option (Option (List Attribute))
  pub common_name : Option Text
  pub serial : Option Text

pub record Forge : Type 0 where
  pub message_from_der : List ℕ → Result Cms
  pub sha256_hex : List ℕ → Text

pub record Detached : Type 0 where
  pub fine : Bool
  pub reason : Option String
  pub common_name : Option Text
  pub serial : Option Text
  pub time : Option ℕ

-- Of two attributes of one kind the later counts.
unfoldable pub digest_matches : Text → List Attribute → Option Bool → Option Bool
digest_matches expected [] found = found
digest_matches expected (message_digest d ∷ l) found =
    digest_matches expected l (some (d == expected))
digest_matches expected (signing_time t ∷ l) found = digest_matches expected l found
digest_matches expected (other_attribute ∷ l) found = digest_matches expected l found

unfoldable pub time_of : List Attribute → Option ℕ → Option ℕ
time_of [] found = found
time_of (message_digest d ∷ l) found = time_of l found
time_of (signing_time t ∷ l) found = time_of l (some t)
time_of (other_attribute ∷ l) found = time_of l found

unfoldable pub detached_verdict : Cms → Option ℕ → Option Bool → Detached
detached_verdict cms time none = record {
  fine = false;
  reason = some "CMS has no messageDigest attribute";
  common_name = cms.common_name;
  serial = cms.serial;
  time = none;
}
detached_verdict cms time (some matches) = record {
  fine = matches;
  reason = if matches then none else some "document bytes do not match the signed digest";
  common_name = cms.common_name;
  serial = cms.serial;
  time = time;
}

unfoldable pub check_signer : Text → Cms → Option (Option (List Attribute)) → Detached
check_signer expected cms none = record {
  fine = false;
  reason = some "CMS carries no signerInfo";
  common_name = none;
  serial = none;
  time = none;
}
check_signer expected cms (some none) = record {
  fine = false;
  reason = some "CMS has no authenticated attributes";
  common_name = cms.common_name;
  serial = cms.serial;
  time = none;
}
check_signer expected cms (some (some attributes)) =
    detached_verdict cms (time_of attributes none) (digest_matches expected attributes none)

abbrev is_at : Option ℕ → ℕ → Bool
is_at none n = false
is_at (some i) n = nat_eq i n

abbrev issue_if : Bool → String → List String
issue_if true issue = issue ∷ []
issue_if false issue = []

pub record SignatureVerdict : Type 0 where
  pub index : ℕ
  pub byte_range : ByteRange
  pub covers_bytes : ℕ
  pub covers_whole_file : Bool
  pub signer_common_name : Option Text
  pub signer_serial : Option Text
  pub signing_time : Option ℕ
  pub valid : Bool
  pub issues : List String

pub record VerificationReport : Type 0 where
  pub count : ℕ
  pub all_valid : Bool
  pub signatures : List SignatureVerdict

-- The gap has to lie between the two parts of the range, and the range within the file.
unfoldable pub structural_issues : List ℕ → PdfSignatureSlot → List String
structural_issues pdf slot =
    issue_if (not (nat_eq slot.byte_range.start 0)) "ByteRange does not start at byte 0"
    ++ (issue_if (not (is_at slot.contents_start slot.byte_range.before)) "gap start"
        ++ (issue_if (not (nat_eq slot.byte_range.resume slot.contents_end)) "gap end"
            ++ issue_if (ltb (length pdf) (slot.byte_range.resume + slot.byte_range.after))
                "signature claims bytes past end of file"))

unfoldable pub signature_verdict :
    ℕ → List ℕ → PdfSignatureSlot → List String → Option Detached → SignatureVerdict
signature_verdict i pdf slot issues outcome = record {
  index = suc i;
  byte_range = slot.byte_range;
  covers_bytes = slot.byte_range.resume + slot.byte_range.after;
  covers_whole_file = nat_eq (slot.byte_range.resume + slot.byte_range.after) (length pdf);
  signer_common_name = elim outcome [ none ↦ none | some d ↦ d.common_name ];
  signer_serial = elim outcome [ none ↦ none | some d ↦ d.serial ];
  signing_time = elim outcome [ none ↦ none | some d ↦ d.time ];
  valid = elim issues [ [] ↦ true | x ∷ xs ↦ false ];
  issues = issues;
}

abbrev reason_of : Option String → String
reason_of none = "signed digest does not match document"
reason_of (some reason) = reason

abbrev cms_issues : Detached → List String
cms_issues d = if d.fine then [] else reason_of d.reason ∷ []

abbrev parsed_verdict : ℕ → List ℕ → PdfSignatureSlot → Result Detached → SignatureVerdict
parsed_verdict i pdf slot (err x) =
    signature_verdict i pdf slot ("signature could not be parsed" ∷ []) none
parsed_verdict i pdf slot (ok d) = signature_verdict i pdf slot (cms_issues d) (some d)

abbrev pub every_valid : List SignatureVerdict → Bool
every_valid [] = true
every_valid (s ∷ l) = s.valid && every_valid l

module _ (forge : Forge) where
  unfoldable pub verify_detached : List ℕ → List ℕ → Result Detached
  verify_detached der content = do
    cms ← forge.message_from_der der
    ok (check_signer (forge.sha256_hex content) cms cms.signer)

  -- What is signed is looked at only where the structure is sound.
  unfoldable pub verify_slot : ℕ → List ℕ → PdfSignatureSlot → SignatureVerdict
  verify_slot i pdf slot = elim (structural_issues pdf slot) [
    | [] ↦
        parsed_verdict i pdf slot
          (extract_der slot.hex >>= λ der. verify_detached der (content_of slot.byte_range pdf))
    | issue ∷ issues ↦ signature_verdict i pdf slot (issue ∷ issues) none
  ]

  unfoldable pub verify_slots : ℕ → List ℕ → List PdfSignatureSlot → List SignatureVerdict
  verify_slots i pdf [] = []
  verify_slots i pdf (slot ∷ slots) = verify_slot i pdf slot ∷ verify_slots (suc i) pdf slots

  unfoldable pub verify : List ℕ → VerificationReport
  verify pdf =
      let signatures = verify_slots 0 pdf (find_signatures pdf) in
      record {
        count = length signatures;
        all_valid = every_valid signatures;
        signatures = signatures;
      }

  unfoldable pub assert_integrity_after_signing : List ℕ → ℕ → Result VerificationReport
  assert_integrity_after_signing pdf expected_count = do
    let report = verify pdf
    error_if (not (nat_eq report.count expected_count)) "wrong number of signatures after signing"
    error_if (not report.all_valid) "signature integrity failure"
    ok report

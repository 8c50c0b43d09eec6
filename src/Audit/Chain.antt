-- ===== src/Audit/Chain.antt =====
-- The hash chain of the audit log: the trigger audit_logs_chain of
-- api/migrations/009_audit_immutability.ts, and AuditService.verifyChain of
-- api/src/audit/audit.service.ts. The digest of a record and of the hash before it is a parameter.
use onlineaggrement.Base.{
  ℕ, suc, Bool, true, false, List, [], ◌∷◌, Option, none, some, any, select, first, insert,
  update_where, length, nat_eq, ◌==◌, ℕ_eq, if◌then◌else◌,
}
use onlineaggrement.Database.{AuditRow}

pub record ChainedRow : Type 0 where
  pub id : ℕ
  pub record_of : AuditRow
  pub created_at : ℕ
  pub prev_hash : ℕ
  pub row_hash : ℕ

-- The chain of the records without an agreement has the key `none`.
pub record ChainHead : Type 0 where
  pub key : Option ℕ
  pub head_hash : ℕ
  pub record_count : ℕ

pub record Chains : Type 0 where
  pub logs : List ChainedRow
  pub heads : List ChainHead

abbrev pub key_eq : Option ℕ → Option ℕ → Bool
key_eq none none = true
key_eq (some i) (some j) = nat_eq i j
key_eq _ _ = false

abbrev pub is_head : Option ℕ → ChainHead → Bool
is_head key h = key_eq h.key key

abbrev pub in_scope : Option ℕ → ChainedRow → Bool
in_scope key r = key_eq r.record_of.agreement_id key

pub data Verdict : Type 0 where
  intact : (record_count : ℕ) → Verdict
  altered : (id : ℕ) → Verdict
  unlinked : (id : ℕ) → Verdict
  truncated : (expected record_count : ℕ) → Verdict

-- What goes into the digest: not the address and not the agent of the user.
unfoldable pub hashed : AuditRow → AuditRow
hashed r = record r { ip_address = none; user_agent = none }

-- `zero_hash` is the text of 64 zeros.
module _ (zero_hash : ℕ) (digest : ℕ → AuditRow → ℕ → ℕ) where
  -- A chain that is not there is begun.
  unfoldable pub begin_chain : Option ℕ → List ChainHead → List ChainHead
  begin_chain key heads =
      if any (is_head key) heads
      then heads
      else insert (record { key = key; head_hash = zero_hash; record_count = 0 }) heads

  abbrev pub hash_of : Option ChainHead → ℕ
  hash_of none = zero_hash
  hash_of (some h) = h.head_hash

  unfoldable pub chained : ℕ → AuditRow → ℕ → ℕ → ChainedRow
  chained id r now prev = record {
    id = id;
    record_of = r;
    created_at = now;
    prev_hash = prev;
    row_hash = digest prev (hashed r) now;
  }

  unfoldable pub advance_head : ℕ → ChainHead → ChainHead
  advance_head hash h = record h { head_hash = hash; record_count = suc h.record_count }

  unfoldable pub audit_logs_chain : ℕ → AuditRow → ℕ → Chains → Chains
  audit_logs_chain id r now d =
      let heads = begin_chain r.agreement_id d.heads in
      let new = chained id r now (hash_of (first (is_head r.agreement_id) heads)) in
      record {
        logs = insert new d.logs;
        heads = update_where (is_head r.agreement_id) (advance_head new.row_hash) heads;
      }

  -- The first record that does not match its hash, or that does not name its predecessor's.
  unfoldable pub first_break : ℕ → List ChainedRow → Option Verdict
  first_break prev [] = none
  first_break prev (r ∷ rows) =
      let rest = first_break r.row_hash rows in
      if digest r.prev_hash (hashed r.record_of) r.created_at == r.row_hash
      then (if r.prev_hash == prev then rest else some (unlinked r.id))
      else some (altered r.id)

  unfoldable pub check_head : Option ChainHead → ℕ → Verdict
  check_head none count = intact count
  check_head (some h) count =
      if h.record_count == count then intact count else truncated h.record_count count

  unfoldable pub verdict_of : Option Verdict → Option ChainHead → ℕ → Verdict
  verdict_of (some v) head count = v
  verdict_of none head count = check_head head count

  unfoldable pub verify_chain : Option ℕ → Chains → Verdict
  verify_chain key d =
      let rows = select (in_scope key) d.logs in
      verdict_of (first_break zero_hash rows) (first (is_head key) d.heads) (length rows)

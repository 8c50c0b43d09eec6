-- ===== src/Audit/Examples.antt =====
-- Concrete chains of audit records, tests on them, and the theorems applied to them.
use onlineaggrement.Base.{
  map, ℕ, ◌+◌, ◌≡◌, ◌↔◌, refl, List, [], ◌∷◌, none, some, select, first, length, update_where,
}
use onlineaggrement.Database.{AuditRow, agreement_created}
use onlineaggrement.Audit.Chain.{
  Chains, is_head, in_scope, intact, altered, truncated, first_break, check_head, verdict_of,
  verify_chain, audit_logs_chain, begin_chain, chained, advance_head, hashed,
}
use onlineaggrement.Audit.Detection.{append_all, append_all-verify_chain}
use onlineaggrement.Audit.Verification.{
  IsChain, IsCounted, anonymous, verify_chain-intact_iff, verify_chain-anonymous,
}

-- A digest that adds, and a record of the agreement 7.
abbrev adding : ℕ → AuditRow → ℕ → ℕ
adding prev r now = prev + now + 1

abbrev created : AuditRow
created = record {
  agreement_id = some 7;
  agreement_version = none;
  actor_id = none;
  event_type = agreement_created;
  event_data = [];
  ip_address = some "10.0.0.1";
  user_agent = none;
}

abbrev two_records : List (ℕ × AuditRow × ℕ)
two_records = (1, created, 10) ∷ (2, created, 20) ∷ []

abbrev no_chains : Chains
no_chains = record { logs = []; heads = [] }

-- The second record is deleted, and the time of the first is changed.
tampering_tests :
    (verify_chain 0 adding (some 7) (append_all 0 adding two_records no_chains) ≡ intact 2)
    × (verify_chain 0 adding (some 7) (record (append_all 0 adding two_records no_chains) {
      logs = chained 0 adding 1 created 10 0 ∷ [];
    })
        ≡ truncated 2 1)
    × (verify_chain 0 adding (some 7) (record no_chains {
      logs = record (chained 0 adding 1 created 10 0) { created_at = 11 } ∷ [];
    })
        ≡ altered 1)
unfolding hashed verify_chain verdict_of check_head first_break audit_logs_chain begin_chain chained
    advance_head append_all select first update_where
tampering_tests = (refl, refl, refl)

append_all-verify_chain_example :
    verify_chain 0 adding (some 7) (append_all 0 adding two_records no_chains)
    ≡ intact (length (select (in_scope (some 7)) (append_all 0 adding two_records no_chains).logs))
append_all-verify_chain_example = append_all-verify_chain 0 adding two_records (some 7)

verify_chain-intact_iff_example :
    (verify_chain 0 adding (some 7) (append_all 0 adding two_records no_chains) ≡ intact 2) ↔ (
      IsChain 0 adding 0
        (select (in_scope (some 7)) (append_all 0 adding two_records no_chains).logs)
      × (2 ≡ length (select (in_scope (some 7)) (append_all 0 adding two_records no_chains).logs))
      × IsCounted 0 adding
          (first (is_head (some 7)) (append_all 0 adding two_records no_chains).heads)
          2)
verify_chain-intact_iff_example =
    verify_chain-intact_iff 0 adding (some 7) (append_all 0 adding two_records no_chains) 2

verify_chain-anonymous_example :
    verify_chain 0 adding (some 7) (record (append_all 0 adding two_records no_chains) {
      logs = map anonymous (append_all 0 adding two_records no_chains).logs;
    })
    ≡ verify_chain 0 adding (some 7) (append_all 0 adding two_records no_chains)
verify_chain-anonymous_example =
    verify_chain-anonymous 0 adding (some 7) (append_all 0 adding two_records no_chains)

-- ===== src/Esign/Examples.antt =====
-- A concrete provider and world of signing transactions, and the theorems applied to them.
use onlineaggrement.Base.{
  ℕ, ◌≡◌, ◌↔◌, refl, true, List, [], ◌∷◌, Option, none, some, ◌==◌, ℕ_eq, if◌then◌else◌, first,
  update_where,
}
use onlineaggrement.Errors.{ok}
use onlineaggrement.Database.{
  World, empty_db, EsignTransactionRow, EsignStatus, pending_signer, signed, applied, duplicate,
  stale, rejected_signature,
}
use onlineaggrement.Service.{done, ◌>>=◌, ◌>>◌, return, branch, query, write, current_time, final}
use onlineaggrement.Esign.{
  Provider, VerifiedCallback, answer, ingest_callback, ingest_verified, claim, settle, add_event,
  finish_event, event_row,
}
use onlineaggrement.Esign.Ledger.{answer_of, ledger_of, with_ledger, ingest_callback-done}
use onlineaggrement.Esign.Replay.{
  IsApplicable, ingest_callback-replays, ingest_callback-applied_iff,
}

abbrev event : VerifiedCallback
event = record {
  provider_event_id = "e1";
  provider_transaction_id = "t1";
  status = signed;
  failure_code = none;
}

-- A body of one byte 1 is authentic.
abbrev mock_verify : ℕ → List ℕ → Option VerifiedCallback
mock_verify now [] = none
mock_verify now (b ∷ body) = if b == 1 then some event else none

abbrev mock : Provider
mock = record {
  name = "mock";
  is_hash_mode = true;
  initiate_signing = λ now request. ok "t1";
  get_status = λ now id. ok (record { status = signed; failure_code = none });
  get_signature = λ now id. ok (7 ∷ []);
  verify_callback = mock_verify;
}

abbrev attempt : EsignStatus → EsignTransactionRow
attempt status = record {
  id = 1;
  agreement_id = 7;
  party_id = 3;
  agreement_version = 1;
  provider = "mock";
  provider_transaction_id = "t1";
  byte_range_digest = some 9;
  document_hash = 8;
  pending_file_key = none;
  status = status;
  attempt_no = 1;
  failure_code = none;
  initiated_at = 0;
  completed_at = none;
}

abbrev world : EsignStatus → World
world status = record {
  db = record empty_db { esign_transactions = attempt status ∷ [] };
  objects = [];
  now = 1000;
  next_id = 5;
}

-- What a test of the callbacks computes with.
callbacks : Unit {0}
unfolding ◌>>=◌ ◌>>◌ return branch query write current_time first update_where ingest_callback
    ingest_verified claim settle add_event finish_event event_row
callbacks = tt

abbrev after : World
unfolding callbacks
after = final (ingest_callback mock "u1" (1 ∷ []) (world pending_signer))

ingest_callback_tests :
    (ingest_callback mock "u1" (1 ∷ []) (world pending_signer)
      ≡ done (answer applied (some (attempt pending_signer)) (some event)) after)
    × (ingest_callback mock "u2" (1 ∷ []) after ≡ done (answer duplicate none (some event)) after)
    × ((w : World) × (ingest_callback mock "u1" (2 ∷ []) after
          ≡ done (answer rejected_signature none none) w))
    × ((w : World) × (ingest_callback mock "u1" (1 ∷ []) (world signed)
          ≡ done (answer stale (some (attempt signed)) (some event)) w))
unfolding callbacks
ingest_callback_tests = (refl, refl, (_, refl), (_, refl))

ingest_callback-done_example :
    ingest_callback mock "u1" (1 ∷ []) (world pending_signer)
    ≡ done (answer_of "mock" (some event) (world pending_signer).db) (
        with_ledger
          (world pending_signer)
          (ledger_of "mock" "u1" (some event) (world pending_signer).db))
ingest_callback-done_example = ingest_callback-done mock "u1" (1 ∷ []) (world pending_signer)

first_delivery :
    ingest_callback mock "u1" (1 ∷ []) (world pending_signer)
    ≡ done (answer applied (some (attempt pending_signer)) (some event)) after
unfolding callbacks
first_delivery = refl

ingest_callback-replays_example :
    ingest_callback mock "u2" (1 ∷ []) (record after { now = 2000 })
    ≡ done (answer duplicate none (some event)) (record after { now = 2000 })
ingest_callback-replays_example =
    ingest_callback-replays mock "u1" (1 ∷ []) (world pending_signer) event event
      (answer applied (some (attempt pending_signer)) (some event)) after
      (record after { now = 2000 }) "u2" (1 ∷ []) refl first_delivery refl refl refl

ingest_callback-applied_iff_example :
    (applied ≡ applied)
    ↔ IsApplicable "mock" (some event) (world pending_signer).db (some (attempt pending_signer))
ingest_callback-applied_iff_example =
    ingest_callback-applied_iff mock "u1" (1 ∷ []) (world pending_signer)
      (answer applied (some (attempt pending_signer)) (some event)) after first_delivery

-- ===== src/Esign/Ledger.antt =====
-- The ledger of callbacks (EsignService.ingestCallback of api/src/esign/esign.service.ts).
use onlineaggrement.Base.{
  ℕ, ◌≡◌, refl, ap, ◌∙◌, Bool, true, false, ◌&&◌, List, [], ◌∷◌, Option, none, some, String, any,
  first, insert, update_where, ◌==◌, String_eq, eq_iff, arith,
}
use onlineaggrement.Database.{
  Db, World, EsignTransactionRow, CallbackEventRow, CallbackOutcome, applied, duplicate,
  rejected_signature, unmatched, stale,
}
use onlineaggrement.Service.{
  done, ◌>>◌, return, branch, write, >>=-done, >>-done, query-done, write-done, current_time-done,
  branch-true, branch-false,
}
use onlineaggrement.Esign.{
  Provider, VerifiedCallback, is_open, CallbackResult, answer, is_event, event_row, add_event,
  finish_event, settle, claim, ingest_verified, ingest_callback,
}

-- The event was claimed before.
abbrev pub is_seen : String → VerifiedCallback → Db → Bool
is_seen provider event d = any (is_event provider event.provider_event_id) d.esign_callback_events

abbrev pub matching : String → VerifiedCallback → Db → Option EsignTransactionRow
matching provider event d =
    first
      (λ t. t.provider == provider && t.provider_transaction_id == event.provider_transaction_id)
      d.esign_transactions

abbrev applied_or_stale : Bool → CallbackOutcome
applied_or_stale true = applied
applied_or_stale false = stale

-- What the ledger says of a verified event that was not claimed before.
abbrev pub outcome_of : Option EsignTransactionRow → CallbackOutcome
outcome_of none = unmatched
outcome_of (some t) = applied_or_stale (is_open t.status)

abbrev id_of : Option EsignTransactionRow → Option ℕ
id_of none = none
id_of (some t) = some t.id

abbrev pub entry : String → VerifiedCallback → Option EsignTransactionRow → CallbackEventRow
entry provider event t = record (event_row provider event.provider_event_id true none) {
  esign_transaction_id = id_of t;
  outcome = some (outcome_of t);
}

-- The answer to a callback whose authenticity is decided, by what the database holds.
abbrev pub answer_of : String → Option VerifiedCallback → Db → CallbackResult
answer_of provider none d = answer rejected_signature none none
answer_of provider (some event) d = elim (is_seen provider event d) [
  | true ↦ answer duplicate none (some event)
  | false ↦ answer (outcome_of (matching provider event d)) (matching provider event d) (some event)
]

-- The ledger afterwards.
abbrev pub ledger_of : String → String → Option VerifiedCallback → Db → List CallbackEventRow
ledger_of provider unverified_id none d =
    insert (event_row provider unverified_id false (some rejected_signature))
      d.esign_callback_events
ledger_of provider unverified_id (some event) d = elim (is_seen provider event d) [
  | true ↦ d.esign_callback_events
  | false ↦ insert (entry provider event (matching provider event d)) d.esign_callback_events
]

abbrev pub with_ledger : World → List CallbackEventRow → World
with_ledger w rows = record w { db = record (w.db) { esign_callback_events = rows } }

update-insert :
    {A : Type 0} (p : A → Bool) (f : A → A) (xs : List A) (y : A)
    → any p xs ≡ false
    → p y ≡ true
    → update_where p f (insert y xs) ≡ insert (f y) xs
unfolding update_where
update-insert p f [] y h k = ground arith
update-insert p f (x ∷ xs) y h k = ground (arith, update-insert p f xs y)

pub event_row-is_event :
    (provider : String) (event : VerifiedCallback) (valid : Bool) (o : Option CallbackOutcome)
    → is_event provider event.provider_event_id (event_row provider event.provider_event_id valid o)
      ≡ true
unfolding event_row
event_row-is_event provider event valid o =
    ground (arith, eq_iff provider provider, eq_iff event.provider_event_id event.provider_event_id)

module _ (provider : String) (event : VerifiedCallback) where
  module _ (w : World) (unseen : is_seen provider event w.db ≡ false) where
    finish_event-claimed :
        (transaction_id : Option ℕ) (o : CallbackOutcome)
        → finish_event event.provider_event_id provider transaction_id o (
            with_ledger w (
              insert
                (event_row provider event.provider_event_id true none)
                w.db.esign_callback_events))
          ≡ done tt (
              with_ledger w (
                insert
                  (record (event_row provider event.provider_event_id true none) {
                    esign_transaction_id = transaction_id;
                    outcome = some o;
                  })
                  w.db.esign_callback_events))
    unfolding finish_event write
    finish_event-claimed transaction_id o =
        ap (λ rows. done tt (with_ledger w rows))
          (update-insert _ _ w.db.esign_callback_events _ unseen
            (event_row-is_event provider event true none))

    settle-branch :
        (t : EsignTransactionRow) (b : Bool)
        → branch b
            (finish_event event.provider_event_id provider (some t.id) applied
              >> return (answer applied (some t) (some event)))
            (finish_event event.provider_event_id provider (some t.id) stale
              >> return (answer stale (some t) (some event)))
            (with_ledger w (
              insert
                (event_row provider event.provider_event_id true none)
                w.db.esign_callback_events))
          ≡ done (answer (applied_or_stale b) (some t) (some event)) (
              with_ledger w (
                insert
                  (record (event_row provider event.provider_event_id true none) {
                    esign_transaction_id = some t.id;
                    outcome = some (applied_or_stale b);
                  })
                  w.db.esign_callback_events))
    unfolding branch return
    settle-branch t true = >>-done _ _ (finish_event-claimed (some t.id) applied)
    settle-branch t false = >>-done _ _ (finish_event-claimed (some t.id) stale)

    settle-claimed :
        (t : Option EsignTransactionRow)
        → settle provider event t (
            with_ledger w (
              insert
                (event_row provider event.provider_event_id true none)
                w.db.esign_callback_events))
          ≡ done
              (answer (outcome_of t) t (some event))
              (with_ledger w (insert (entry provider event t) w.db.esign_callback_events))
    unfolding settle return
    settle-claimed none = >>-done _ _ (finish_event-claimed none unmatched)
    settle-claimed (some t) = settle-branch t (is_open t.status)

    claim-unseen :
        claim provider event w
        ≡ done
            (answer
              (outcome_of (matching provider event w.db))
              (matching provider event w.db)
              (some event))
            (with_ledger w (
              insert
                (entry provider event (matching provider event w.db))
                w.db.esign_callback_events))
    unfolding claim add_event
    claim-unseen =
        >>=-done _ _ (query-done _)
        ∙ branch-false _ _ unseen
        ∙ >>-done _ _ (write-done _)
        ∙ >>=-done _ _ (query-done _)
        ∙ settle-claimed (matching provider event w.db)

  claim-seen :
      (w : World)
      → is_seen provider event w.db ≡ true
      → claim provider event w ≡ done (answer duplicate none (some event)) w
  unfolding claim return
  claim-seen w seen = >>=-done _ _ (query-done _) ∙ branch-true _ _ seen ∙ refl

  claim-done :
      (w : World) (b : Bool)
      → is_seen provider event w.db ≡ b
      → claim provider event w
        ≡ done
            (elim b [
              | true ↦ answer duplicate none (some event)
              | false ↦
                  answer
                    (outcome_of (matching provider event w.db))
                    (matching provider event w.db)
                    (some event)
            ])
            (with_ledger w (elim b [
              | true ↦ w.db.esign_callback_events
              | false ↦
                  insert
                    (entry provider event (matching provider event w.db))
                    w.db.esign_callback_events
            ]))
  claim-done w true h = claim-seen w h
  claim-done w false h = claim-unseen w h

ingest_verified-done :
    (provider unverified_id : String) (v : Option VerifiedCallback) (w : World)
    → ingest_verified provider unverified_id v w
      ≡ done (answer_of provider v w.db) (with_ledger w (ledger_of provider unverified_id v w.db))
unfolding ingest_verified add_event return
ingest_verified-done provider unverified_id none w = >>-done _ _ (write-done _)
ingest_verified-done provider unverified_id (some event) w =
    claim-done provider event w (is_seen provider event w.db) refl

module _ (provider : Provider) (unverified_id : String) (raw_body : List ℕ) (w : World) where
  abbrev pub verified : Option VerifiedCallback
  verified = provider.verify_callback w.now raw_body

  -- A callback never throws. Its answer and the ledger afterwards are determined by the
  -- verification, the ledger and the matching transaction, and nothing but the ledger changes.
  pub ingest_callback-done :
      ingest_callback provider unverified_id raw_body w
      ≡ done
          (answer_of provider.name verified w.db)
          (with_ledger w (ledger_of provider.name unverified_id verified w.db))
  unfolding ingest_callback
  ingest_callback-done = >>=-done _ _ current_time-done ∙ ingest_verified-done _ _ verified w

-- ===== src/Esign/Replay.antt =====
-- Deliveries of one event more than once, and what the reconciliation can rely on
-- (EsignService.ingestCallback of api/src/esign/esign.service.ts).
use onlineaggrement.Base.{
  ℕ, ◌≡◌, refl, sym, ap, ◌∙◌, ◌↔◌, Bool, true, false, List, [], ◌∷◌, Option, none, some, String,
  any, insert, arith, subst, String_eq,
}
use onlineaggrement.Database.{World, Db, EsignTransactionRow, applied, duplicate}
use onlineaggrement.Service.{done, done-injective}
use onlineaggrement.Esign.{
  Provider, VerifiedCallback, is_open, CallbackResult, answer, is_event, event_row, ingest_callback,
}
use onlineaggrement.Esign.Ledger.{
  is_seen, matching, answer_of, ledger_of, with_ledger, ingest_callback-done, outcome_of, entry,
  event_row-is_event,
}

any-insert :
    {A : Type 0} (p : A → Bool) (xs : List A) (y : A) → p y ≡ true → any p (insert y xs) ≡ true
any-insert p [] y h = ground arith
any-insert p (x ∷ xs) y h = ground (arith, any-insert p xs y h)

module _ (provider : String) (event : VerifiedCallback) (d : Db) where
  ledger_of-seen_at :
      (b : Bool)
      → is_seen provider event d ≡ b
      → any (is_event provider event.provider_event_id) (elim b [
        | true ↦ d.esign_callback_events
        | false ↦ insert (entry provider event (matching provider event d)) d.esign_callback_events
      ])
        ≡ true
  unfolding event_row
  ledger_of-seen_at true h = h
  ledger_of-seen_at false h =
      any-insert _ d.esign_callback_events _ (event_row-is_event provider event true none)

  -- A claimed event is in the ledger.
  ledger_of-is_seen :
      (unverified_id : String)
      → any
          (is_event provider event.provider_event_id)
          (ledger_of provider unverified_id (some event) d)
        ≡ true
  ledger_of-is_seen unverified_id = ledger_of-seen_at (is_seen provider event d) refl

  answer_of-seen :
      is_seen provider event d ≡ true
      → answer_of provider (some event) d ≡ answer duplicate none (some event)
  answer_of-seen h = rw (h, answer_of)

  ledger_of-seen :
      (unverified_id : String)
      → is_seen provider event d ≡ true
      → ledger_of provider unverified_id (some event) d ≡ d.esign_callback_events
  ledger_of-seen unverified_id h = rw (h, ledger_of)

-- Why a callback is applied.
abbrev pub IsApplicable :
    String → Option VerifiedCallback → Db → Option EsignTransactionRow → Type 0
IsApplicable provider v d found =
    (event : VerifiedCallback) × (t : EsignTransactionRow) × (v ≡ some event)
    × (is_seen provider event d ≡ false)
    × (matching provider event d ≡ some t)
    × (is_open t.status ≡ true)
    × (found ≡ some t)

module _ (provider : String) (event : VerifiedCallback) (d : Db) where
  abbrev answer_at : Bool → Option EsignTransactionRow → CallbackResult
  answer_at b o = elim b [
    | true ↦ answer duplicate none (some event)
    | false ↦ answer (outcome_of o) o (some event)
  ]

  answer_at-applied_iff :
      (b : Bool) (o : Option EsignTransactionRow)
      → is_seen provider event d ≡ b
      → matching provider event d ≡ o
      → ((answer_at b o).outcome ≡ applied)
        ↔ IsApplicable provider (some event) d (answer_at b o).transaction
  answer_at-applied_iff true o h k = (λ e. cc, λ (x, t, e, a, b, c, same). cc)
  answer_at-applied_iff false none h k = (λ e. cc, λ (x, t, e, a, b, c, same). cc)
  answer_at-applied_iff false (some t) h k = (
    λ e. (event, t, refl, h, k, ground arith, refl),
    λ (x, u, e, unseen, found, opened, same). ground arith,
  )

answer_of-applied_iff :
    (provider : String) (v : Option VerifiedCallback) (d : Db)
    → ((answer_of provider v d).outcome ≡ applied)
      ↔ IsApplicable provider v d (answer_of provider v d).transaction
answer_of-applied_iff provider none d = (λ h. cc, λ (event, t, h, a, b, c, e). cc)
answer_of-applied_iff provider (some event) d =
    answer_at-applied_iff provider event d (is_seen provider event d) (matching provider event d)
      refl refl

module _ (provider : Provider) (unverified_id : String) (raw_body : List ℕ) (w : World) where
  -- After a delivery of an authentic event, every authentic delivery with the same identifier of
  -- the event, at any later time and with any body, is answered DUPLICATE and changes nothing, as
  -- long as the database is as the first delivery left it.
  pub ingest_callback-replays :
      (event again : VerifiedCallback) (r : CallbackResult) (w' v : World) (id : String)
      (body : List ℕ)
      → provider.verify_callback w.now raw_body ≡ some event
      → ingest_callback provider unverified_id raw_body w ≡ done r w'
      → v.db ≡ w'.db
      → provider.verify_callback v.now body ≡ some again
      → again.provider_event_id ≡ event.provider_event_id
      → ingest_callback provider id body v ≡ done (answer duplicate none (some again)) v
  ingest_callback-replays event again r w' v id body h e same k match =
      let (answered, world) =
        done-injective (sym (ingest_callback-done provider unverified_id raw_body w) ∙ e) in
      let rows : v.db.esign_callback_events
          ≡ ledger_of provider.name unverified_id (some event) w.db =
        ap (λ d. d.esign_callback_events) (same ∙ ap (λ x. x.db) (sym world))
        ∙ ap (λ o. ledger_of provider.name unverified_id o w.db) h in
      let seen : is_seen provider.name again v.db ≡ true =
        ap (λ i. any (is_event provider.name i) v.db.esign_callback_events) match
        ∙ ap (any (is_event provider.name event.provider_event_id)) rows
        ∙ ledger_of-is_seen provider.name event w.db unverified_id in
      ingest_callback-done provider id body v
      ∙ ap
          (λ o.
            done (answer_of provider.name o v.db)
              (with_ledger v (ledger_of provider.name id o v.db)))
          k
      ∙ ap (λ a. done a (with_ledger v (ledger_of provider.name id (some again) v.db)))
          (answer_of-seen provider.name again v.db seen)
      ∙ ap (λ l. done (answer duplicate none (some again)) (with_ledger v l))
          (ledger_of-seen provider.name again v.db id seen)

  -- A callback is answered APPLIED exactly when it is authentic, its event was not claimed
  -- before, and an open transaction matches it, which is then the one returned.
  pub ingest_callback-applied_iff :
      (r : CallbackResult) (w' : World)
      → ingest_callback provider unverified_id raw_body w ≡ done r w'
      → (r.outcome ≡ applied)
        ↔ IsApplicable provider.name (provider.verify_callback w.now raw_body) w.db r.transaction
  ingest_callback-applied_iff r w' e =
      let (same, world) =
        done-injective (sym (ingest_callback-done provider unverified_id raw_body w) ∙ e) in
      subst
        (λ x.
          (x.outcome ≡ applied)
          ↔ IsApplicable provider.name (provider.verify_callback w.now raw_body) w.db x.transaction)
        same (answer_of-applied_iff provider.name (provider.verify_callback w.now raw_body) w.db)

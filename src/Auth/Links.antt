-- ===== src/Auth/Links.antt =====
-- A link lets its party in once (redeemPartyAccess of api/src/auth/auth.service.ts).
use onlineaggrement.Base.{
  nat_eq, ℕ, ◌≡◌, ◌≤◌, ◌<◌, refl, sym, ap, ◌∙◌, Bool, true, List, [], ◌∷◌, none, some, Text,
  Text_eq, first, select, update_where, first-holds, nat_eq_iff, Bool-cases, ◌==◌, ℕ_eq, arith, inl,
  inr,
}
use onlineaggrement.Errors.{forbidden, not_found}
use onlineaggrement.Database.{Db, World, PartyAccessTokenRow}
use onlineaggrement.Service.{
  done, fail, done-injective, return, ◌>>=◌, ◌>>◌, >>=-inverse, >>-inverse, >>=-fail, query, write,
  or_throw, or_throw-none, current_time,
}
use onlineaggrement.Service.Inverse.{return-inverse, write-inverse, query-inverse, or_throw-inverse}
use onlineaggrement.Audit.{audit_record}
use onlineaggrement.Signing.Ceremony.{ActionContext}
use onlineaggrement.Auth.{
  Credentials, LoggedIn, is_claimable, claim_tokens, party_session, grant_session, redeem_at,
  redeem_party_access, redeem_at,
}

abbrev tokens : Db → List PartyAccessTokenRow
tokens d = d.party_access_tokens

abbrev mark : ℕ → PartyAccessTokenRow → PartyAccessTokenRow
mark now r = record r { used_at = some now }

-- A row that was claimed is used, and one that was not has expired or is another's.
select-claimed :
    (hash now later : ℕ) (rows : List PartyAccessTokenRow)
    → now ≤ later
    → select (is_claimable hash later) (update_where (is_claimable hash now) (mark now) rows) ≡ []
unfolding select update_where is_claimable
select-claimed hash now later [] h = refl
select-claimed hash now later (r ∷ rows) h = ground (arith, select-claimed hash now later rows h)

-- Only rows with the digest are claimed.
select-same_digest :
    (hash now : ℕ) (rows : List PartyAccessTokenRow)
    → select (is_claimable hash now) (select (λ r. r.token_hash == hash) rows)
      ≡ select (is_claimable hash now) rows
unfolding select is_claimable
select-same_digest hash now [] = refl
select-same_digest hash now (r ∷ rows) = elim (Bool-cases (nat_eq r.token_hash hash)) [
  | inl t ↦ ground (arith, t, select-same_digest hash now rows)
  | inr t ↦ ground (arith, t, select-same_digest hash now rows)
]

-- What the claim demands of a row.
record IsClaimed (hash now : ℕ) (r : PartyAccessTokenRow) : Type 0 where
  digest : r.token_hash ≡ hash
  fresh : r.used_at ≡ none
  live : now < r.expires_at

is_claimable-IsClaimed :
    (hash now : ℕ) (r : PartyAccessTokenRow) → is_claimable hash now r ≡ true → IsClaimed hash now r
unfolding is_claimable
is_claimable-IsClaimed hash now r h = record {
  digest = ground (arith, h, nat_eq_iff r.token_hash hash);
  fresh = ground (arith, h);
  live = ground (arith, h);
}

update_where-idle :
    {A : Type 0} (p : A → Bool) (f : A → A) (rows : List A)
    → select p rows ≡ []
    → update_where p f rows ≡ rows
unfolding select update_where
update_where-idle p f [] h = refl
update_where-idle p f (x ∷ rows) h = elim (Bool-cases (p x)) [
  | inl t ↦ ground (arith, t)
  | inr t ↦ ground (arith, t, update_where-idle p f rows)
]

first-chosen :
    {A : Type 0} (p : A → Bool) (rows : List A) (a : A)
    → first (λ r. true) (select p rows) ≡ some a
    → first p rows ≡ some a
unfolding first select
first-chosen p [] a h = cc
first-chosen p (x ∷ rows) a h = ground (arith, first-chosen p rows a)

module _ (hash now : ℕ) (w v : World) (claimed : List PartyAccessTokenRow) where
  claim_tokens-inverse :
      claim_tokens hash now w ≡ done claimed v
      → (select (is_claimable hash now) (tokens w.db) ≡ claimed)
        × (tokens v.db ≡ update_where (is_claimable hash now) (mark now) (tokens w.db))
        × (v.now ≡ w.now)
        × (v.db.agreement_parties ≡ w.db.agreement_parties)
  unfolding claim_tokens query write return ◌>>=◌ ◌>>◌
  claim_tokens-inverse h =
      let (same, there) = done-injective h in
      (
        same,
        sym (ap (λ x. tokens x.db) there),
        sym (ap (λ x. x.now) there),
        sym (ap (λ x. x.db.agreement_parties) there),
      )

-- What a session of a party rests on.
record IsGranted (grant : PartyAccessTokenRow) (w v : World) (s : LoggedIn) : Type 0 where
  scope : s.session.scoped_agreement_id ≡ some grant.agreement_id
  holder : s.session.scoped_party_id ≡ some grant.party_id
  same_tokens : tokens v.db ≡ tokens w.db
  same_time : v.now ≡ w.now

module _ (credentials : Credentials) where
  grant_session-inverse :
      (grant : PartyAccessTokenRow) (ctx : ActionContext) (w v : World) (s : LoggedIn)
      → grant_session credentials grant ctx w ≡ done s v
      → IsGranted grant w v s
  unfolding grant_session audit_record party_session
  grant_session-inverse grant ctx w v s h =
      let (row, w1, e1, k1) = >>=-inverse (query _) _ h in
      let (party, w2, e2, k2) = >>=-inverse (or_throw row (not_found "Agreement party")) _ k1 in
      let (t, w3, e3, k3) = >>-inverse (write _) _ k2 in
      let (same, there) = return-inverse k3 in
      let (at, start) = query-inverse _ e1 in
      let (hit, start') = or_throw-inverse row _ e2 in
      let written = write-inverse _ e3 in
      record {
        scope = sym (ap (λ x. x.session.scoped_agreement_id) same);
        holder =
            sym (ap (λ x. x.session.scoped_party_id) same)
            ∙ ap some (
                (nat_eq_iff party.id grant.party_id).0 (
                  first-holds (λ p. p.id == grant.party_id) w.db.agreement_parties party
                    (at ∙ hit)));
        same_tokens =
            sym (ap (λ x. tokens x.db) (written ∙ there))
            ∙ sym (ap (λ x. tokens x.db) (start ∙ start'));
        same_time =
            sym (ap (λ x. x.now) (written ∙ there)) ∙ sym (ap (λ x. x.now) (start ∙ start'));
      }

  -- A refused claim leaves the tokens as they were.
  redeem-refused :
      (token : Text) (ctx : ActionContext) (w : World)
      → select (is_claimable (credentials.digest token) w.now) (tokens w.db) ≡ []
      → (u : World) × (redeem_party_access credentials token ctx w ≡ fail (forbidden none) u)
        × (tokens u.db ≡ tokens w.db)
  unfolding redeem_party_access redeem_at current_time claim_tokens first query write return ◌>>=◌
      ◌>>◌
  redeem-refused token ctx w h = (
    _,
    >>=-fail
        (or_throw
          (first (λ r. true) (select (is_claimable (credentials.digest token) w.now) (tokens w.db)))
          (forbidden none))
        (λ grant. grant_session credentials grant ctx) (or_throw-none _ (ap (first (λ r. true)) h)),
    update_where-idle (is_claimable (credentials.digest token) w.now) (mark w.now) (tokens w.db) h,
  )

  redeem_at-inverse :
      (hash now : ℕ) (ctx : ActionContext) (w v : World) (s : LoggedIn)
      → redeem_at credentials hash ctx now w ≡ done s v
      → (grant : PartyAccessTokenRow) × (first (is_claimable hash now) (tokens w.db) ≡ some grant)
        × (s.session.scoped_agreement_id ≡ some grant.agreement_id)
        × (s.session.scoped_party_id ≡ some grant.party_id)
        × (tokens v.db ≡ update_where (is_claimable hash now) (mark now) (tokens w.db))
        × (v.now ≡ w.now)
  unfolding redeem_at
  redeem_at-inverse hash now ctx w v s h =
      let (claimed, w1, e1, k1) = >>=-inverse (claim_tokens hash now) _ h in
      let (grant, w2, e2, k2) =
        >>=-inverse (or_throw (first (λ r. true) claimed) (forbidden none)) _ k1 in
      let (chosen, marked, time, parties) = claim_tokens-inverse hash now w w1 claimed e1 in
      let (hit, same) = or_throw-inverse (first (λ r. true) claimed) _ e2 in
      let g = grant_session-inverse grant ctx w2 v s k2 in
      (
        grant,
        first-chosen (is_claimable hash now) (tokens w.db) grant
            (ap (first (λ r. true)) chosen ∙ hit),
        g.scope,
        g.holder,
        g.same_tokens ∙ sym (ap (λ x. tokens x.db) same) ∙ marked,
        g.same_time ∙ sym (ap (λ x. x.now) same) ∙ time,
      )

  -- A link that is redeemed has a row with the digest of its token, unused and not yet expired, and
  -- its session is scoped to the agreement and the party of that row; redeemed again by anyone, at
  -- that time or later and whatever else has changed, it is refused, if the rows with the digest are
  -- those that the first redemption left.
  pub redeem_party_access-once :
      (token : Text) (ctx again : ActionContext) (w v x : World) (s : LoggedIn)
      → redeem_party_access credentials token ctx w ≡ done s v
      → v.now ≤ x.now
      → select (λ r. r.token_hash == credentials.digest token) x.db.party_access_tokens
        ≡ select (λ r. r.token_hash == credentials.digest token) v.db.party_access_tokens
      → ((grant : PartyAccessTokenRow) × (first
              (λ r. is_claimable (credentials.digest token) w.now r)
              w.db.party_access_tokens
            ≡ some grant)
          × (grant.token_hash ≡ credentials.digest token)
          × (grant.used_at ≡ none)
          × (w.now < grant.expires_at)
          × (s.session.scoped_agreement_id ≡ some grant.agreement_id)
          × (s.session.scoped_party_id ≡ some grant.party_id))
        × ((u : World) × (redeem_party_access credentials token again x ≡ fail (forbidden none) u)
            × (u.db.party_access_tokens ≡ x.db.party_access_tokens))
  unfolding redeem_party_access current_time ◌>>=◌
  redeem_party_access-once token ctx again w v x s h after same =
      let hash = credentials.digest token in
      let (grant, was, scope, holder, marked, time) = redeem_at-inverse hash w.now ctx w v s h in
      let was_claimed =
        is_claimable-IsClaimed hash w.now grant
          (first-holds (is_claimable hash w.now) (tokens w.db) grant was) in
      (
        (grant, was, was_claimed.digest, was_claimed.fresh, was_claimed.live, scope, holder),
        redeem-refused token again x (
            sym (select-same_digest hash x.now (tokens x.db))
            ∙ ap (select (is_claimable hash x.now)) same
            ∙ select-same_digest hash x.now (tokens v.db)
            ∙ ap (select (is_claimable hash x.now)) marked
            ∙ select-claimed hash w.now x.now (tokens w.db) (omega (arith, time, after))),
      )

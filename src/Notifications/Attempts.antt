-- ===== src/Notifications/Attempts.antt =====
-- Every recipient that is pending is attempted, whatever becomes of the others (dispatchPending of
-- api/src/notifications/notifications.service.ts).
use onlineaggrement.Base.{
  ℕ, suc, ◌+◌, ◌≡◌, refl, sym, ap, ◌∙◌, inl, inr, Bool, true, false, ◌||◌, List, [], ◌∷◌, Option,
  none, some, All, any, first, take, zero, length, update_where, ◌==◌, ℕ_eq, Bool-cases,
  Option-cases, first-update_where, first-update_where_miss, first-none-any, first-holds, All-imp,
  arith,
}
use onlineaggrement.Errors.{Result-cases}
use onlineaggrement.Database.{
  Db, World, RecipientRow, NotificationRow, NotificationStatus, sent, failed,
}
use onlineaggrement.Service.{
  done, ◌>>=◌, ◌>>◌, >>=-done, >>=-fail, return, query, write, current_time, fresh_id, catch-done,
  catch-fail, from_result-ok, from_result-err,
}
use onlineaggrement.Audit.{audit_record}
use onlineaggrement.Notifications.Mails.{Mailer, PendingRow, render_mail}
use onlineaggrement.Notifications.Dispatch.{
  joined, pending_rows, is_pending, join_row, set_recipient, as_sent, as_failed, Dispatched,
  counted, send_row, deliver, record_failure, dispatch_one, dispatch_each, mark_dispatched,
  dispatch_pending,
}

abbrev pub recipient_at : ℕ → Db → Option RecipientRow
recipient_at i d = first (λ r. r.id == i) d.notification_recipients

abbrev pub is_settled : NotificationStatus → Bool
is_settled sent = true
is_settled failed = true
is_settled _ = false

-- What an attempt makes of a recipient's row.
record IsAttempt (row : PendingRow) (f : RecipientRow → RecipientRow) : Type 0 where
  same_id : (r : RecipientRow) → (f r).id ≡ r.id
  one_more : (r : RecipientRow) → (f r).attempt_count ≡ suc row.recipient.attempt_count
  settled : (r : RecipientRow) → is_settled (f r).status ≡ true

abbrev row_id : PendingRow → ℕ
row_id row = row.recipient.id

module _ (mailer : Mailer) (row : PendingRow) (w : World) where
  abbrev attempt : World
  attempt = record w { next_id = suc w.next_id }

  Attempted : (RecipientRow → RecipientRow) → World → Type 0
  Attempted f v =
      v.db.notification_recipients
      ≡ update_where (λ r. r.id == row.recipient.id) f w.db.notification_recipients

  dispatch_one-done :
      (b : Bool) × (v : World) × (f : RecipientRow → RecipientRow) × (dispatch_one mailer row w
        ≡ done b v)
      × IsAttempt row f
      × Attempted f v
  unfolding dispatch_one send_row deliver record_failure set_recipient audit_record as_sent
      as_failed ◌>>=◌ ◌>>◌ current_time query fresh_id write return Attempted
  dispatch_one-done =
      elim (Result-cases (mailer.send w.next_id (render_mail mailer w.now row w.db))) [
        | inl (m, e) ↦ (
          true,
          _,
          as_sent row.recipient w.now m,
          catch-done (deliver mailer row) _
              (>>=-done (send_row mailer row) _ (from_result-ok {w = attempt} e)),
          record { same_id = λ r. refl; one_more = λ r. refl; settled = λ r. refl },
          refl,
        )
        | inr (x, e) ↦ (
          false,
          _,
          as_failed row.recipient _,
          catch-fail (deliver mailer row) _
              (>>=-fail (send_row mailer row) _ (from_result-err {w = attempt} e)),
          record { same_id = λ r. refl; one_more = λ r. refl; settled = λ r. refl },
          refl,
        )
      ]

-- The row of a recipient after the dispatch: one more attempt, and sent or failed.
pub record IsAttempted (d : Db) (row : PendingRow) : Type 0 where
  pub after : RecipientRow
  pub found : recipient_at row.recipient.id d ≡ some after
  pub one_more : after.attempt_count ≡ suc row.recipient.attempt_count
  pub settled : is_settled after.status ≡ true

-- No two of the rows have one recipient.
abbrev pub Apart : List PendingRow → Type 0
Apart [] = Unit
Apart (row ∷ rows) = (any (λ q. q.recipient.id == row.recipient.id) rows ≡ false) × Apart rows

abbrev IsThere : Db → PendingRow → Type 0
IsThere d row = any (λ r. r.id == row.recipient.id) d.notification_recipients ≡ true

any-update_where :
    (i j : ℕ) (f : RecipientRow → RecipientRow) (rows : List RecipientRow)
    → ((r : RecipientRow) → (f r).id ≡ r.id)
    → any (λ r. r.id == i) (update_where (λ r. r.id == j) f rows) ≡ any (λ r. r.id == i) rows
unfolding update_where
any-update_where i j f [] h = refl
any-update_where i j f (r ∷ rows) h = ground (arith, h r, any-update_where i j f rows h)

first-there :
    (i : ℕ) (rows : List RecipientRow)
    → any (λ r. r.id == i) rows ≡ true
    → (r : RecipientRow) × (first (λ r. r.id == i) rows ≡ some r)
first-there i rows h = elim (Option-cases (first (λ r. r.id == i) rows)) [
  | inl miss ↦ absurd (clash (sym h ∙ first-none-any (λ r. r.id == i) rows miss))
  | inr (r, hit) ↦ (r, hit)
]
  where
    clash : true ≡ false → ⊥
    clash e = cc

module _ (row : PendingRow) (f : RecipientRow → RecipientRow) (a : IsAttempt row f) (d d' : Db)
    (e : d'.notification_recipients
      ≡ update_where (λ r. r.id == row.recipient.id) f d.notification_recipients) where
  attempt-here : IsThere d row → IsAttempted d' row
  attempt-here h =
      let (r, hit) = first-there row.recipient.id d.notification_recipients h in
      record {
        after = f r;
        found =
            ap (first (λ r. r.id == row.recipient.id)) e
            ∙ first-update_where (λ r. r.id == row.recipient.id) (λ r. r.id == row.recipient.id) f
                d.notification_recipients r (λ x k. k)
                (λ x. ap (λ i. i == row.recipient.id) (a.same_id x)) (first-holds _ _ r hit) hit;
        one_more = a.one_more r;
        settled = a.settled r;
      }

  attempt-others : (i : ℕ) → (row.recipient.id == i) ≡ false → recipient_at i d' ≡ recipient_at i d
  attempt-others i h =
      ap (first (λ r. r.id == i)) e
      ∙ first-update_where_miss (λ r. r.id == i) (λ r. r.id == row.recipient.id) f
          d.notification_recipients (λ x k. ground arith) (λ x. ap (λ j. j == i) (a.same_id x))

  attempt-IsThere : (q : PendingRow) → IsThere d q → IsThere d' q
  attempt-IsThere q h =
      ap (any (λ r. r.id == q.recipient.id)) e
      ∙ any-update_where q.recipient.id row.recipient.id f d.notification_recipients a.same_id
      ∙ h

counted-total :
    (b : Bool) (n : Dispatched) (l : ℕ) {s : ℕ}
    → s ≡ (counted b n).sent + (counted b n).failed + l
    → s ≡ n.sent + n.failed + suc l
counted-total true n l h = omega arith
counted-total false n l h = omega arith

or-false_left : (a b : Bool) → (a || b) ≡ false → a ≡ false
or-false_left a b h = ground arith

or-false_right : (a b : Bool) → (a || b) ≡ false → b ≡ false
or-false_right a b h = ground arith

module _ (mailer : Mailer) where
  record IsRound (rows : List PendingRow) (n n' : Dispatched) (d d' : Db) : Type 0 where
    counts : n'.sent + n'.failed ≡ n.sent + n.failed + length rows
    attempted_all : All (IsAttempted d') rows
    others :
        (i : ℕ) → any (λ q. q.recipient.id == i) rows ≡ false → recipient_at i d' ≡ recipient_at i d

  dispatch_each-IsRound :
      (rows : List PendingRow) (n : Dispatched) (w : World)
      → Apart rows
      → All (IsThere w.db) rows
      → (n' : Dispatched) × (v : World) × (dispatch_each mailer rows n w ≡ done n' v)
        × IsRound rows n n' w.db v.db
  unfolding dispatch_each Attempted return
  dispatch_each-IsRound [] n w apart there =
      (n, w, refl, record { counts = omega arith; attempted_all = tt; others = λ i h. refl })
  dispatch_each-IsRound (row ∷ rows) n w (apart, aparts) (there, theres) =
      let (b, v1, f, e1, a, u) = dispatch_one-done mailer row w in
      let (n', v, e2, r) = dispatch_each-IsRound rows (counted b n) v1 aparts (
        All-imp (IsThere w.db) (IsThere v1.db) rows (attempt-IsThere row f a w.db v1.db u)
          theres) in
      let here = attempt-here row f a w.db v1.db u there in
      (
        n',
        v,
        >>=-done (dispatch_one mailer row) _ e1 ∙ e2,
        record {
          counts = counted-total b n (length rows) r.counts;
          attempted_all = (
            record {
              after = here.after;
              found = r.others row.recipient.id apart ∙ here.found;
              one_more = here.one_more;
              settled = here.settled;
            },
            r.attempted_all,
          );
          others = λ i h.
              r.others i (or-false_right _ _ h)
              ∙ attempt-others row f a w.db v1.db u i (or-false_left _ _ h);
        },
      )

Among : List RecipientRow → PendingRow → Type 0
Among rows q = any (λ r. r.id == q.recipient.id) rows ≡ true

Among-later :
    (r : RecipientRow) (rows : List RecipientRow) (q : PendingRow)
    → Among rows q
    → Among (r ∷ rows) q
unfolding Among
Among-later r rows q h = ground arith

join_row-Among :
    (o : Option NotificationRow) (r : RecipientRow) (rows : List RecipientRow)
    (rest : List PendingRow)
    → All (Among (r ∷ rows)) rest
    → All (Among (r ∷ rows)) (join_row o r rest)
unfolding Among
join_row-Among none r rows rest h = h
join_row-Among (some n) r rows rest h = elim (Bool-cases (is_pending r)) [
  | inl t ↦ rw (t) (ground arith, h)
  | inr t ↦ rw (t) h
]

joined-Among :
    (notifications : List NotificationRow) (rows : List RecipientRow)
    → All (Among rows) (joined notifications rows)
unfolding joined Among
joined-Among notifications [] = tt
joined-Among notifications (r ∷ rows) =
    let later =
      All-imp (Among rows) (Among (r ∷ rows)) (joined notifications rows) (Among-later r rows)
        (joined-Among notifications rows) in
    join_row-Among (first (λ n. n.id == r.notification_id) notifications) r rows
      (joined notifications rows) later

All-take : {A : Type 0} (P : A → Type 0) (n : ℕ) (xs : List A) → All P xs → All P (take n xs)
All-take P zero xs h = tt
All-take P (suc n) [] h = tt
All-take P (suc n) (x ∷ xs) (h, k) = (h, All-take P n xs k)

no_more : (s l : ℕ) → s ≡ 0 + 0 + l → s ≡ l
no_more s l h = omega arith

-- The sending of the emails does not fail, whatever the mail server does: provided that no two of
-- the pending rows that it reads have one recipient, it counts each of them once, as sent or as
-- failed, and each then has one more attempt and is sent or failed, while the row of every other
-- recipient is as it was.
pub dispatch_pending-attempts :
    (mailer : Mailer) (limit : ℕ) (w : World)
    → Apart (pending_rows limit w.db)
    → (n : Dispatched) × (v : World) × (dispatch_pending mailer limit w ≡ done n v)
      × (n.sent + n.failed ≡ length (pending_rows limit w.db))
      × All (IsAttempted v.db) (pending_rows limit w.db)
      × ((i : ℕ)
          → any (λ q. q.recipient.id == i) (pending_rows limit w.db) ≡ false
          → recipient_at i v.db ≡ recipient_at i w.db)
unfolding dispatch_pending pending_rows mark_dispatched current_time write query return Among ◌>>=◌
    ◌>>◌
dispatch_pending-attempts mailer limit w apart =
    let (n, v, e, r) =
      dispatch_each-IsRound mailer (pending_rows limit w.db) (record { sent = 0; failed = 0 }) w
        apart
        (All-take (IsThere w.db) limit (joined w.db.notifications w.db.notification_recipients)
          (joined-Among w.db.notifications w.db.notification_recipients)) in
    (
      n,
      _,
      >>=-done (dispatch_each mailer (pending_rows limit w.db) (record { sent = 0; failed = 0 })) _
          e,
      no_more _ _ r.counts,
      All-imp (IsAttempted v.db)
          (IsAttempted (mark_dispatched (pending_rows limit w.db) v.now v.db))
          (pending_rows limit w.db)
          (λ q x. record {
            after = x.after;
            found = x.found;
            one_more = x.one_more;
            settled = x.settled;
          })
          r.attempted_all,
      r.others,
    )

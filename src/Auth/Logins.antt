-- ===== src/Auth/Logins.antt =====
-- Who is let in by a password (login of api/src/auth/auth.service.ts).
use onlineaggrement.Base.{
  ℕ, ◌≡◌, refl, sym, ap, ◌∙◌, Bool, true, false, ◌&&◌, Option, none, some, Text, Text_eq, first,
  Bool-cases, ℕ_eq, inl, inr,
}
use onlineaggrement.Errors.{forbidden, not_found}
use onlineaggrement.Database.{same_email, Db, World, UserRow}
use onlineaggrement.Service.{
  done, done-ne-fail, ◌>>=◌, ◌>>◌, >>=-inverse, >>-inverse, query, write, throw, throw_if, or_throw,
  branch-true, branch-false, current_time,
}
use onlineaggrement.Service.Inverse.{
  throw_if-inverse, return-inverse, write-inverse, query-inverse, or_throw-inverse,
}
use onlineaggrement.Audit.{audit_record}
use onlineaggrement.Banks.{roles_of}
use onlineaggrement.Signing.Ceremony.{ActionContext}
use onlineaggrement.Auth.{
  Credentials, LoggedIn, register_failure, hash_of, is_locked, is_external, principal_for, refuse,
  open_session, admit, login_as, login,
}

both-true : (a b : Bool) → (a && b) ≡ true → (a ≡ true) × (b ≡ true)
both-true true true h = (refl, refl)
both-true true false h = cc
both-true false b h = cc

module _ (credentials : Credentials) where
  refuse-fails :
      (user : Option UserRow) (email : Text) (ctx : ActionContext) (w v : World) {s : LoggedIn}
      → refuse user email ctx w ≡ done s v
      → ⊥
  unfolding refuse throw
  refuse-fails user email ctx w v h =
      let (t, w1, e1, k1) = >>-inverse (register_failure user) _ h in
      let (u, w2, e2, k2) = >>-inverse (audit_record _ _ _) _ k1 in done-ne-fail (sym k2)

  -- What a session of a user says.
  record IsOpened (user : UserRow) (d : Db) (s : LoggedIn) : Type 0 where
    roles : s.session.roles ≡ roles_of user.id d
    unscoped : s.session.scoped_agreement_id ≡ none

  open_session-inverse :
      (user : UserRow) (email : Text) (ctx : ActionContext) (now : ℕ) (w v : World) (s : LoggedIn)
      → open_session credentials user email ctx now w ≡ done s v
      → IsOpened user w.db s
  unfolding open_session principal_for
  open_session-inverse user email ctx now w v s h =
      let (t, w1, e1, k1) = >>-inverse (write _) _ h in
      let (session, w2, e2, k2) = >>=-inverse (principal_for user.id) _ k1 in
      let (u, w3, e3, k3) = >>-inverse (audit_record _ _ _) _ k2 in
      let (row, w4, e4, k4) = >>=-inverse (query _) _ e2 in
      let (read, w5, e5, k5) = >>=-inverse (or_throw row (not_found "User")) _ k4 in
      let (roles, w6, e6, k6) = >>=-inverse (query (roles_of user.id)) _ k5 in
      let (same, end) = return-inverse k6 in
      let (given, last) = return-inverse k3 in
      let before : w1 ≡ w5 = (query-inverse _ e4).1 ∙ (or_throw-inverse row _ e5).1 in
      record {
        roles =
            sym (ap (λ x. x.session.roles) given)
            ∙ sym (ap (λ x. x.roles) same)
            ∙ sym (query-inverse (roles_of user.id) e6).0
            ∙ ap (λ x. roles_of user.id x.db) (sym before)
            ∙ ap (λ x. roles_of user.id x.db) (sym (write-inverse _ e1));
        unscoped =
            sym (ap (λ x. x.session.scoped_agreement_id) given)
            ∙ sym (ap (λ x. x.scoped_agreement_id) same);
      }

  admit-inverse :
      (user : UserRow) (email : Text) (ctx : ActionContext) (w v : World) (s : LoggedIn)
      → admit credentials user email ctx w ≡ done s v
      → (is_locked w.now user ≡ false) × (is_external user ≡ false) × IsOpened user w.db s
  unfolding admit current_time ◌>>=◌
  admit-inverse user email ctx w v s h =
      let (t, w1, e1, k1) =
        >>-inverse (throw_if (is_locked w.now user) (forbidden none)) {w = w}
          (throw_if (is_external user) (forbidden none)
            >> open_session credentials user email ctx w.now)
          h in
      let (u, w2, e2, k2) =
        >>-inverse (throw_if (is_external user) (forbidden none))
          (open_session credentials user email ctx w.now) k1 in
      let (unlocked, same) = throw_if-inverse (is_locked w.now user) _ e1 in
      let (inside, same') = throw_if-inverse (is_external user) _ e2 in
      let o = open_session-inverse user email ctx w.now w2 v s k2 in
      (
        unlocked,
        inside,
        record {
          roles = o.roles ∙ ap (λ x. roles_of user.id x.db) (sym (same ∙ same'));
          unscoped = o.unscoped;
        },
      )

  login_as-inverse :
      (found : Option UserRow) (ok : Bool) (email : Text) (ctx : ActionContext) (w v : World)
      (s : LoggedIn)
      → login_as credentials found ok email ctx w ≡ done s v
      → (user : UserRow) × (found ≡ some user)
        × (ok ≡ true)
        × (user.is_active ≡ true)
        × (is_locked w.now user ≡ false)
        × (is_external user ≡ false)
        × IsOpened user w.db s
  unfolding login_as
  login_as-inverse none ok email ctx w v s h = absurd (refuse-fails none email ctx w v h)
  login_as-inverse (some user) ok email ctx w v s h = elim (Bool-cases (ok && user.is_active)) [
    | inl t ↦
        let (right, active) = both-true ok user.is_active t in
        let (unlocked, inside, o) = admit-inverse user email ctx w v s (
          sym (branch-true (admit credentials user email ctx) (refuse (some user) email ctx) t)
          ∙ h) in
        (user, refl, right, active, unlocked, inside, o)
    | inr t ↦ absurd (
        refuse-fails (some user) email ctx w v (
          sym (branch-false (admit credentials user email ctx) (refuse (some user) email ctx) t)
          ∙ h))
  ]

  -- A login that returns was of the first user with the email, whatever the case of its letters, who
  -- was active, is no external party and whose account was not locked, with the right password; the session has exactly the roles that the user then had, and the scope of no agreement.
  pub login-admits :
      (email password : Text) (ctx : ActionContext) (w v : World) (s : LoggedIn)
      → login credentials email password ctx w ≡ done s v
      → (user : UserRow) × (first (λ u. same_email u.email email) w.db.users ≡ some user)
        × (credentials.compare password (hash_of (some user)) ≡ true)
        × (user.is_active ≡ true)
        × (is_locked w.now user ≡ false)
        × (is_external user ≡ false)
        × (s.session.roles ≡ roles_of user.id w.db)
        × (s.session.scoped_agreement_id ≡ none)
  unfolding login query ◌>>=◌
  login-admits email password ctx w v s h =
      let found = first (λ u. same_email u.email email) w.db.users in
      let (user, hit, right, active, unlocked, inside, o) =
        login_as-inverse found (credentials.compare password (hash_of found)) email ctx w v s h in
      (
        user,
        hit,
        ap (λ o. credentials.compare password (hash_of o)) (sym hit) ∙ right,
        active,
        unlocked,
        inside,
        o.roles,
        o.unscoped,
      )

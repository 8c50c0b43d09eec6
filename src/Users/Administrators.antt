-- ===== src/Users/Administrators.antt =====
-- The last administrator cannot be deactivated (setActive of api/src/users/users.service.ts).
use onlineaggrement.Base.{
  ℕ, ◌≡◌, refl, sym, ap, ◌∙◌, Bool, true, false, not, ◌&&◌, List, [], ◌∷◌, Option, any, select,
  length, nat_eq, ltb, suc, map, includes, ◌||◌, update_where, ◌==◌, ℕ_eq, arith,
}
use onlineaggrement.Errors.{not_found}
use onlineaggrement.Database.{Db, World, UserRow, UserRoleRow}
use onlineaggrement.Service.{
  done, done-injective, return, ◌>>◌, >>=-inverse, >>-inverse, branch-false, query, write, or_throw,
  branch,
}
use onlineaggrement.Service.Inverse.{throw_if-inverse, query-inverse, or_throw-inverse}
use onlineaggrement.Audit.{audit_record}
use onlineaggrement.Workflow.States.{super_admin, agreement_admin, Role_eq}
use onlineaggrement.Users.{
  get_user, is_administrator, other_administrators, assert_not_last_administrator,
  assert_not_a_designated_signer, check_deactivation, with_active, store_active, set_active,
  is_signer_of,
}

-- Of the rows that meet a test, one with another identifier is left alone.
any-others :
    (p : UserRow → Bool) (id : ℕ) (f : UserRow → UserRow) (users : List UserRow)
    → nat_eq (length (select (λ u. p u && not (u.id == id)) users)) 0 ≡ false
    → any p (update_where (λ u. u.id == id) f users) ≡ true
unfolding select update_where
any-others p id f [] h = cc
any-others p id f (u ∷ users) h = ground (arith, any-others p id f users)

not_last-inverse :
    (id : ℕ) {w v : World} {u : Unit {0}}
    → assert_not_last_administrator id w ≡ done u v
    → (nat_eq (length (other_administrators id w.db)) 0 ≡ false) × (w ≡ v)
unfolding assert_not_last_administrator
not_last-inverse id h =
    let (count, w1, e1, k1) = >>=-inverse (query _) _ h in
    let (at, same) = query-inverse _ e1 in
    let (some_other, same') = throw_if-inverse _ _ k1 in
    (ap (λ n. nat_eq n 0) at ∙ some_other, same ∙ same')

not_a_signer-inverse :
    (id : ℕ) {w v : World} {u : Unit {0}}
    → assert_not_a_designated_signer id w ≡ done u v
    → (nat_eq (length (select (is_signer_of id) w.db.banks)) 0 ≡ true) × (w ≡ v)
unfolding assert_not_a_designated_signer
not_a_signer-inverse id h =
    let (count, w1, e1, k1) = >>=-inverse (query _) _ h in
    let (at, same) = query-inverse _ e1 in
    let (none_there, same') = throw_if-inverse _ _ k1 in
    (ap (λ n. nat_eq n 0) at ∙ none_left count none_there, same ∙ same')
  where
    none_left : (n : ℕ) → ltb 0 n ≡ false → nat_eq n 0 ≡ true
    none_left n h = ground arith

check_deactivation-inverse :
    (id : ℕ) {w v : World} {u : Unit {0}}
    → check_deactivation id w ≡ done u v
    → (nat_eq (length (other_administrators id w.db)) 0 ≡ false)
      × (nat_eq (length (select (is_signer_of id) w.db.banks)) 0 ≡ true)
      × (w ≡ v)
unfolding check_deactivation
check_deactivation-inverse id {w} h =
    let (t, w1, e1, k1) = >>-inverse (assert_not_last_administrator id) _ h in
    let (others, same) = not_last-inverse id e1 in
    let (signers, same') = not_a_signer-inverse id k1 in
    (
      others,
      ap (λ x. nat_eq (length (select (is_signer_of id) x.db.banks)) 0) same ∙ signers,
      same ∙ same',
    )

abbrev pub is_active_administrator : Db → UserRow → Bool
is_active_administrator d u = is_administrator d u && u.is_active

-- The rows of users and roles after the row is written.
store_active-inverse :
    (id actor_id : ℕ) (user : UserRow) (w v : World) (u : Option UserRow)
    → store_active id false user actor_id w ≡ done u v
    → (v.db.users ≡ update_where (λ u. u.id == id) (with_active false) w.db.users)
      × (v.db.user_roles ≡ w.db.user_roles)
unfolding store_active ◌>>◌ write audit_record query
store_active-inverse id actor_id user w v u h =
    let same = (done-injective h).1 in
    (sym (ap (λ x. x.db.users) same), sym (ap (λ x. x.db.user_roles) same))

abbrev administers : List UserRoleRow → UserRow → Bool
administers rows u =
    let roles = map (λ r. r.role) (select (λ r. r.user_id == u.id) rows) in
    (includes roles super_admin || includes roles agreement_admin) && u.is_active

administrator-after :
    (id : ℕ) (d d' : Db)
    → d'.users ≡ update_where (λ u. u.id == id) (with_active false) d.users
    → d'.user_roles ≡ d.user_roles
    → nat_eq (length (other_administrators id d)) 0 ≡ false
    → any (is_active_administrator d') d'.users ≡ true
unfolding other_administrators
administrator-after id d d' users roles others =
    ap (any (administers d'.user_roles)) users
    ∙ ap
        (λ rows.
          any (administers rows) (update_where (λ u. u.id == id) (with_active false) d.users))
        roles
    ∙ any-others (administers d.user_roles) id (with_active false) d.users others

none-left : {A : Type 0} (xs : List A) → nat_eq (length xs) 0 ≡ true → xs ≡ []
none-left [] h = refl
none-left (x ∷ xs) h = absurd (no_zero (length xs) h)
  where
    no_zero : (n : ℕ) → nat_eq (suc n) 0 ≡ true → ⊥
    no_zero n h = ground arith

-- A deactivation that returns leaves an active administrator, and the one deactivated was the
-- countersigner of no active bank.
pub set_active-keeps_administrator :
    (id actor_id : ℕ) (w v : World) (u : Option UserRow)
    → set_active id false actor_id w ≡ done u v
    → (any (is_active_administrator v.db) v.db.users ≡ true)
      × (select (is_signer_of id) w.db.banks ≡ [])
unfolding set_active
set_active-keeps_administrator id actor_id w v u h =
    let (row, w1, e1, k1) = >>=-inverse (query (get_user id)) _ h in
    let (user, w2, e2, k2) = >>=-inverse (or_throw row (not_found "User")) _ k1 in
    let (t, w3, e3, k3) = >>-inverse (branch false (return tt) (check_deactivation id)) _ k2 in
    let start = (query-inverse (get_user id) e1).1 ∙ (or_throw-inverse row _ e2).1 in
    let checked = sym (branch-false (return tt) (check_deactivation id) refl) ∙ e3 in
    let (others, signers, same) = check_deactivation-inverse id checked in
    let (users, roles) = store_active-inverse id actor_id user w3 v u k3 in
    (
      administrator-after id w3.db v.db users roles
          (sym (ap (λ x. nat_eq (length (other_administrators id x.db)) 0) same) ∙ others),
      none-left _
          (ap (λ x. nat_eq (length (select (is_signer_of id) x.db.banks)) 0) start ∙ signers),
    )

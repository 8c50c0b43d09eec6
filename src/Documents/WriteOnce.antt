-- ===== src/Documents/WriteOnce.antt =====
-- The objects before and after a write (FilesystemStorageDriver.put and get of
-- api/src/documents/storage/storage.driver.ts).
use onlineaggrement.Base.{
  ℕ, ◌≡◌, refl, sym, ap, ◌∙◌, subst, inl, inr, Bool, true, false, List, [], ◌∷◌, none, some, any,
  first, insert, Bool-cases, Option-cases, first-insert, first-insert_hit, arith,
}
use onlineaggrement.Errors.{other_error}
use onlineaggrement.Database.{World, FileKey}
use onlineaggrement.Service.{
  done, fail, final, >>=-done, >>-done, >>-fail, throw_if-true, throw_if-false, done-injective,
  done-ne-fail, or_throw-some,
}
use onlineaggrement.Documents.Storage.{
  object_at, is_stored, bytes_of, same_key, same_key_refl, get_object, exists_object, link_object,
  put_object,
}

module _ {A : Type 0} (p : A → Bool) where
  any-none : (xs : List A) → any p xs ≡ false → first p xs ≡ none
  unfolding first
  any-none [] h = refl
  any-none (x ∷ xs) h = ground (arith, any-none xs)

none_ne_some : {b : List ℕ} → none ≡ some b → ⊥
none_ne_some h = cc

module _ (key : FileKey) (bytes : List ℕ) (w : World) where
  abbrev stored : World
  stored = record w { objects = insert (key, bytes) w.objects }

  put_object-taken :
      is_stored key w.objects ≡ true → put_object key bytes w ≡ fail (other_error "EEXIST") w
  unfolding put_object exists_object
  put_object-taken h = >>=-done _ _ refl ∙ >>-fail _ _ (throw_if-true _ h)

  put_object-free : is_stored key w.objects ≡ false → put_object key bytes w ≡ done tt stored
  unfolding put_object exists_object link_object
  put_object-free h = >>=-done _ _ refl ∙ >>-done _ _ (throw_if-false _ h)

  stored-object_at : is_stored key w.objects ≡ false → object_at key stored.objects ≡ some bytes
  stored-object_at h =
      ap bytes_of
        (first-insert_hit _ w.objects (key, bytes) (any-none _ w.objects h) (same_key_refl key))

  -- A write that returns has stored the bytes: a read of the key gives them back, and the database
  -- is as it was.
  pub put_object-get_object :
      (v : World)
      → put_object key bytes w ≡ done tt v
      → (get_object key v ≡ done bytes v) × (v.db ≡ w.db)
  unfolding get_object
  put_object-get_object v e = elim (Bool-cases (is_stored key w.objects)) [
    | inl taken ↦ absurd (done-ne-fail (sym e ∙ put_object-taken taken))
    | inr free ↦
        let (_, same) = done-injective (sym (put_object-free free) ∙ e) in
        (
          or_throw-some _
              (subst (λ x. object_at key x.objects ≡ some bytes) same (stored-object_at free)),
          ap (λ x. x.db) (sym same),
        )
  ]

  object_at-insert :
      (k : FileKey) (b : List ℕ) (o : FileKey × List ℕ)
      → object_at k w.objects ≡ some b
      → object_at k (insert o w.objects) ≡ some b
  object_at-insert k b o h = elim (Option-cases (first (λ x. same_key x.0 k) w.objects)) [
    | inl absent ↦ absurd (none_ne_some (sym (ap bytes_of absent) ∙ h))
    | inr (found, e) ↦ ap bytes_of (first-insert _ w.objects o found e) ∙ sym (ap bytes_of e) ∙ h
  ]

  -- No write replaces an object or loses one, whether it returns or throws.
  pub put_object-keeps :
      (k : FileKey) (b : List ℕ)
      → object_at k w.objects ≡ some b
      → object_at k (final (put_object key bytes w)).objects ≡ some b
  put_object-keeps k b h = elim (Bool-cases (is_stored key w.objects)) [
    | inl taken ↦ rw (put_object-taken taken) h
    | inr free ↦ rw (put_object-free free) (object_at-insert k b (key, bytes) h)
  ]

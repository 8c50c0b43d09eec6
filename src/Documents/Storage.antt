-- ===== src/Documents/Storage.antt =====
-- The write-once object store (api/src/documents/storage/storage.driver.ts) and its keys. The
-- checks of the mounted share are left out: a store that is not usable refuses every write.
use onlineaggrement.Base.{
  ℕ, ◌≡◌, Bool, true, false, ◌&&◌, List, Option, none, some, any, first, insert, nat_eq, ◌==◌, ℕ_eq,
  Text_eq, text_beq_iff, arith,
}
use onlineaggrement.Errors.{other_error}
use onlineaggrement.Database.{
  FileKey, FileName, doc_file, pending_file, scan_file, bank_source, bank_agreement, DocType,
  uploaded_source, composed_unsigned, generated_unsigned, prepared_unsigned, agent_signed,
  employee_attested, employee_signed, final, PartyType, agent, employee, md, accounts,
}
use onlineaggrement.Service.{M, done, ◌>>=◌, ◌>>◌, or_throw, throw_if}

abbrev doc_type_index : DocType → ℕ
doc_type_index uploaded_source = 0
doc_type_index composed_unsigned = 1
doc_type_index generated_unsigned = 2
doc_type_index prepared_unsigned = 3
doc_type_index agent_signed = 4
doc_type_index employee_attested = 5
doc_type_index employee_signed = 6
doc_type_index final = 7

abbrev pub party_index : PartyType → ℕ
party_index agent = 0
party_index employee = 1
party_index md = 2
party_index accounts = 3

unfoldable pub same_name : FileName → FileName → Bool
same_name (doc_file a) (doc_file b) = nat_eq (doc_type_index a) (doc_type_index b)
same_name (pending_file p m) (pending_file q n) =
    nat_eq (party_index p) (party_index q) && nat_eq m n
same_name (scan_file m) (scan_file n) = nat_eq m n
same_name (bank_source m) (bank_source n) = nat_eq m n
same_name (bank_agreement m) (bank_agreement n) = nat_eq m n
same_name _ _ = false

unfoldable pub same_key : FileKey → FileKey → Bool
same_key a b =
    a.agreement_number == b.agreement_number
    && nat_eq a.version b.version
    && nat_eq a.year b.year
    && nat_eq a.month b.month
    && same_name a.name b.name

same_name_refl : (n : FileName) → same_name n n ≡ true
unfolding same_name
same_name_refl (doc_file a) = ground arith
same_name_refl (pending_file p m) = ground arith
same_name_refl (scan_file m) = ground arith
same_name_refl (bank_source m) = ground arith
same_name_refl (bank_agreement m) = ground arith

pub same_key_refl : (k : FileKey) → same_key k k ≡ true
unfolding same_key
same_key_refl k =
    ground (arith, same_name_refl k.name, text_beq_iff k.agreement_number k.agreement_number)

abbrev pub bytes_of : Option (FileKey × List ℕ) → Option (List ℕ)
bytes_of none = none
bytes_of (some o) = some o.1

abbrev pub object_at : FileKey → List (FileKey × List ℕ) → Option (List ℕ)
object_at key objects = bytes_of (first (λ o. same_key o.0 key) objects)

abbrev pub is_stored : FileKey → List (FileKey × List ℕ) → Bool
is_stored key objects = any (λ o. same_key o.0 key) objects

unfoldable pub get_object : FileKey → M (List ℕ)
get_object key w = or_throw (object_at key w.objects) (other_error "ENOENT") w

unfoldable pub exists_object : FileKey → M Bool
exists_object key w = done (is_stored key w.objects) w

unfoldable pub link_object : FileKey → List ℕ → M (Unit {0})
link_object key bytes w = done tt (record w { objects = insert (key, bytes) w.objects })

-- The link fails where the key is taken: no object is ever replaced.
unfoldable pub put_object : FileKey → List ℕ → M (Unit {0})
put_object key bytes =
    exists_object key >>= λ taken. throw_if taken (other_error "EEXIST") >> link_object key bytes

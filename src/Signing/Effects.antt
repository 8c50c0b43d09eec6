-- ===== src/Signing/Effects.antt =====
-- The steps of a completion other than the transitions, and the table of agreements
-- (api/src/signing/signing.service.ts).
use onlineaggrement.Base.{
  ◌∷◌, [], ℕ, ◌≡◌, refl, Bool, update_where, List, Option, none, some, String, Text,
}
use onlineaggrement.Database.{
  Db, FileKey, AgreementRow, AgreementVersionRow, DocumentRow, PartyType, NotificationEvent,
  SignatureState, EsignStatus, StampAllocationRow, AuditEvent, Datum, SignatureEventRow, PartyRow,
}
use onlineaggrement.Errors.{DomainError, Result}
use onlineaggrement.Service.{
  M, ◌>>=◌, ◌>>◌, return, throw, throw_if, or_throw, from_result, query, write, current_time,
  fresh_id, catch,
}
use onlineaggrement.Service.Keeps.{
  Keeps, Keeps->>=, Keeps->>, Keeps-return, Keeps-throw, Keeps-throw_if, Keeps-or_throw,
  Keeps-from_result, Keeps-query, Keeps-write, Keeps-current_time, Keeps-fresh_id, Keeps-catch,
}
use onlineaggrement.Service.Unchanged.{Unchanged, Unchanged-IsPreorder}
use onlineaggrement.Audit.{AuditContext, audit_record}
use onlineaggrement.Documents.{
  Platform, StoreParams, CompleteParams, insert_version, insert_document, store_version, store,
  complete_signature, current_version,
}
use onlineaggrement.Documents.Storage.{get_object, exists_object, link_object, put_object}
use onlineaggrement.Notifications.{insert_recipients, EnqueueRequest, enqueue}
use onlineaggrement.Stamps.{set_status, use_stamp, mark_used}
use onlineaggrement.Esign.{mark_signed, mark_failed, get_transaction}
use onlineaggrement.Signing.Parties.{party, party_by_id}
use onlineaggrement.Signing.Reference.{
  ensure_sequence, next_execution_reference, mint_for, keep_or_mint, mint_execution_reference,
}
use onlineaggrement.Signing.Ceremony.{add_signature_event}
use onlineaggrement.Signing.Completion.{Completion, notify_signed, finalize}

abbrev pub agreements_of : Db → List AgreementRow
agreements_of d = d.agreements

-- The method leaves the agreements as they are.
abbrev pub IsQuiet : {A : Type 0} → M A → Type 0
IsQuiet m = Keeps (Unchanged agreements_of) m

module _ {A B : Type 0} where
  IsQuiet->>= : {m : M A} {f : A → M B} → IsQuiet m → ((a : A) → IsQuiet (f a)) → IsQuiet (m >>= f)
  IsQuiet->>= = Keeps->>= (Unchanged-IsPreorder agreements_of)

  IsQuiet->> : {m : M A} {k : M B} → IsQuiet m → IsQuiet k → IsQuiet (m >> k)
  IsQuiet->> = Keeps->> (Unchanged-IsPreorder agreements_of)

module _ {A : Type 0} where
  IsQuiet-return : (a : A) → IsQuiet (return a)
  IsQuiet-return = Keeps-return (Unchanged-IsPreorder agreements_of)

  IsQuiet-throw : (e : DomainError) → IsQuiet (throw {A = A} e)
  IsQuiet-throw = Keeps-throw (Unchanged-IsPreorder agreements_of)

  IsQuiet-or_throw : (o : Option A) (e : DomainError) → IsQuiet (or_throw o e)
  IsQuiet-or_throw = Keeps-or_throw (Unchanged-IsPreorder agreements_of)

  IsQuiet-from_result : (r : Result A) → IsQuiet (from_result r)
  IsQuiet-from_result = Keeps-from_result (Unchanged-IsPreorder agreements_of)

  IsQuiet-query : (f : Db → A) → IsQuiet (query f)
  IsQuiet-query = Keeps-query (Unchanged-IsPreorder agreements_of)

  IsQuiet-catch :
      {m : M A} {f : DomainError → M A}
      → IsQuiet m
      → ((e : DomainError) → IsQuiet (f e))
      → IsQuiet (catch m f)
  IsQuiet-catch = Keeps-catch (Unchanged-IsPreorder agreements_of)

IsQuiet-throw_if : (b : Bool) (e : DomainError) → IsQuiet (throw_if b e)
IsQuiet-throw_if = Keeps-throw_if (Unchanged-IsPreorder agreements_of)

IsQuiet-write : (f : Db → Db) → ((d : Db) → (f d).agreements ≡ d.agreements) → IsQuiet (write f)
IsQuiet-write = Keeps-write (Unchanged-IsPreorder agreements_of)

pub IsQuiet-current_time : IsQuiet current_time
IsQuiet-current_time = Keeps-current_time (Unchanged-IsPreorder agreements_of)

pub IsQuiet-fresh_id : IsQuiet fresh_id
IsQuiet-fresh_id = Keeps-fresh_id (Unchanged-IsPreorder agreements_of)

ruleset quiet = (
  IsQuiet->>=, IsQuiet->>, IsQuiet-return, IsQuiet-throw, IsQuiet-or_throw, IsQuiet-from_result,
  IsQuiet-query, IsQuiet-catch, IsQuiet-throw_if, IsQuiet-write, IsQuiet-current_time,
  IsQuiet-fresh_id,
)

get_object-IsQuiet : (key : FileKey) → IsQuiet (get_object key)
unfolding get_object
get_object-IsQuiet key = record { kept = λ w. (IsQuiet-or_throw _ _).kept w }

put_object-IsQuiet : (key : FileKey) (bytes : List ℕ) → IsQuiet (put_object key bytes)
unfolding put_object exists_object link_object
put_object-IsQuiet key bytes =
    IsQuiet->>= (record { kept = λ w. refl })
      λ taken. IsQuiet->> (IsQuiet-throw_if taken _) (record { kept = λ w. refl })

insert_version-IsQuiet : (v : AgreementVersionRow) → IsQuiet (insert_version v)
unfolding insert_version
insert_version-IsQuiet v = search quiet depth 40

insert_document-IsQuiet : (r : DocumentRow) → IsQuiet (insert_document r)
unfolding insert_document
insert_document-IsQuiet r = search quiet depth 40

store_version-IsQuiet :
    (params : StoreParams) (hash : ℕ) (key : FileKey) (state : Option SignatureState)
    → IsQuiet (store_version params hash key state)
unfolding store_version
store_version-IsQuiet params hash key none = IsQuiet-return none
store_version-IsQuiet params hash key (some state) = search (quiet, insert_version-IsQuiet)

audit_record-IsQuiet :
    (event : AuditEvent) (details : List (String × Datum)) (ctx : AuditContext)
    → IsQuiet (audit_record event details ctx)
unfolding audit_record
audit_record-IsQuiet event details ctx = search quiet

pub add_signature_event-IsQuiet : (e : SignatureEventRow) → IsQuiet (add_signature_event e)
unfolding add_signature_event
add_signature_event-IsQuiet e = search quiet

pub mark_signed-IsQuiet : (i : ℕ) → IsQuiet (mark_signed i)
unfolding mark_signed
mark_signed-IsQuiet i = search quiet depth 40

insert_recipients-IsQuiet :
    (notification_id : ℕ) (parties : List PartyRow)
    → IsQuiet (insert_recipients notification_id parties)
unfolding insert_recipients
insert_recipients-IsQuiet n [] = IsQuiet-return tt
insert_recipients-IsQuiet n (p ∷ parties) =
    IsQuiet->>= IsQuiet-fresh_id
      λ id. IsQuiet->> (IsQuiet-write _ (λ d. refl)) (insert_recipients-IsQuiet n parties)

pub enqueue-IsQuiet : (req : EnqueueRequest) → IsQuiet (enqueue req)
unfolding enqueue
enqueue-IsQuiet req = search (quiet, insert_recipients-IsQuiet) depth 40

pub party-IsQuiet : (i : ℕ) (kind : PartyType) → IsQuiet (party i kind)
unfolding party
party-IsQuiet i kind = search quiet

pub party_by_id-IsQuiet : (i : ℕ) → IsQuiet (party_by_id i)
unfolding party_by_id
party_by_id-IsQuiet i = search quiet

pub current_version-IsQuiet : (i version : ℕ) → IsQuiet (current_version i version)
unfolding current_version
current_version-IsQuiet i version = search quiet

pub get_transaction-IsQuiet : (i : ℕ) → IsQuiet (get_transaction i)
unfolding get_transaction
get_transaction-IsQuiet i = search quiet

pub mark_failed-IsQuiet : (i : ℕ) (code : String) (s : EsignStatus) → IsQuiet (mark_failed i code s)
unfolding mark_failed
mark_failed-IsQuiet i code s = search quiet depth 40

use_stamp-IsQuiet :
    (i : ℕ) (actor : Option ℕ) (a : Option StampAllocationRow) → IsQuiet (use_stamp i actor a)
unfolding use_stamp set_status
use_stamp-IsQuiet i actor none = IsQuiet-return tt
use_stamp-IsQuiet i actor (some a) = search (quiet, audit_record-IsQuiet) depth 40

mark_used-IsQuiet : (i : ℕ) (actor : Option ℕ) → IsQuiet (mark_used i actor)
unfolding mark_used
mark_used-IsQuiet i actor = search (quiet, use_stamp-IsQuiet)

pub finalize-IsQuiet : (i hash : ℕ) → IsQuiet (finalize i hash)
unfolding finalize
finalize-IsQuiet i hash =
    search (quiet, mark_used-IsQuiet, audit_record-IsQuiet, enqueue-IsQuiet) depth 40

pub notify_signed-IsQuiet :
    (c : Completion) (n : Option (NotificationEvent × List PartyType)) → IsQuiet (notify_signed c n)
unfolding notify_signed
notify_signed-IsQuiet c none = IsQuiet-return tt
notify_signed-IsQuiet c (some (event, recipients)) = search (quiet, enqueue-IsQuiet)

next_execution_reference-IsQuiet :
    (bank agent fy : Text) → IsQuiet (next_execution_reference bank agent fy)
unfolding next_execution_reference ensure_sequence
next_execution_reference-IsQuiet bank agent fy = search quiet depth 40

pub write_parties-IsQuiet :
    (q : PartyRow → Bool) (f : PartyRow → PartyRow)
    → IsQuiet (write (λ d. record d { agreement_parties = update_where q f d.agreement_parties }))
write_parties-IsQuiet q f = search quiet

module _ (platform : Platform) where
  store-IsQuiet : (params : StoreParams) → IsQuiet (store platform params)
  unfolding store
  store-IsQuiet params =
      search (quiet, put_object-IsQuiet, store_version-IsQuiet, insert_document-IsQuiet) depth 40

  pub complete_signature-IsQuiet :
      (params : CompleteParams) → IsQuiet (complete_signature platform params)
  unfolding complete_signature
  complete_signature-IsQuiet params = search (quiet, get_object-IsQuiet, store-IsQuiet) depth 40

  mint_for-IsQuiet : (a : AgreementRow) (code : Option Text) → IsQuiet (mint_for platform a code)
  unfolding mint_for
  mint_for-IsQuiet a none = IsQuiet-return none
  mint_for-IsQuiet a (some code) = search (quiet, next_execution_reference-IsQuiet) depth 40

  keep_or_mint-IsQuiet :
      (a : AgreementRow) (kept : Option Text) → IsQuiet (keep_or_mint platform a kept)
  unfolding keep_or_mint
  keep_or_mint-IsQuiet a none = search (quiet, mint_for-IsQuiet)
  keep_or_mint-IsQuiet a (some kept) = IsQuiet-return (some kept)

  pub mint_execution_reference-IsQuiet :
      (a : AgreementRow) → IsQuiet (mint_execution_reference platform a)
  unfolding mint_execution_reference
  mint_execution_reference-IsQuiet a = search (quiet, keep_or_mint-IsQuiet)

-- ===== src/History/Documents.antt =====
-- The history, for the document pipeline and the notifications
-- (api/src/documents/documents.service.ts, api/src/notifications/notifications.service.ts).
use onlineaggrement.Base.{Text, ℕ, refl, List, [], ◌∷◌, Option, none, some}
use onlineaggrement.Database.{
  PartyRow, FileKey, AgreementVersionRow, DocumentRow, SignatureState, SignatureEventRow,
}
use onlineaggrement.Service.Keeps.{Keeps, Keeps-write}
use onlineaggrement.Workflow.Traces.{run}
use onlineaggrement.Workflow.Rules.{SigningParty}
use onlineaggrement.Documents.{
  Platform, Appearance, StoreParams, CompleteParams, insert_version, insert_document, store_version,
  store, begin_signature, complete_signature, current_version,
}
use onlineaggrement.Documents.Storage.{get_object, exists_object, link_object, put_object}
use onlineaggrement.Notifications.{insert_recipients, EnqueueRequest, enqueue}
use onlineaggrement.Signing.Ceremony.{add_signature_event}
use onlineaggrement.History.{Grows-refl, Follows, Follows-IsPreorder}
use onlineaggrement.History.Steps.{
  Follows->>, Follows->>=, Follows-fresh_id, steps, write-apart, Follows->>=, Follows->>,
  Follows-return, Follows-query, Follows-throw_if, Follows-or_throw,
}

pub get_object-Keeps : (key : FileKey) → Keeps Follows (get_object key)
unfolding get_object
get_object-Keeps key = record { kept = λ w. (Follows-or_throw _ _).kept w }

pub exists_object-Keeps : (key : FileKey) → Keeps Follows (exists_object key)
unfolding exists_object
exists_object-Keeps key = record { kept = λ w. Follows-IsPreorder.same w.db }

link_object-Keeps : (key : FileKey) (bytes : List ℕ) → Keeps Follows (link_object key bytes)
unfolding link_object
link_object-Keeps key bytes = record { kept = λ w. Follows-IsPreorder.same w.db }

pub put_object-Keeps : (key : FileKey) (bytes : List ℕ) → Keeps Follows (put_object key bytes)
unfolding put_object
put_object-Keeps key bytes = search (steps, exists_object-Keeps, link_object-Keeps) depth 40

insert_version-Keeps : (v : AgreementVersionRow) → Keeps Follows (insert_version v)
unfolding insert_version run
insert_version-Keeps v = Follows->>= (Follows-query _) λ taken.
    Follows->> (Follows-throw_if taken _) (
      Keeps-write Follows-IsPreorder _ λ d. record {
        audit = Grows-refl d.audit_logs;
        log = Grows-refl d.workflow_transitions;
        versions = (_, refl);
        documents = Grows-refl d.agreement_documents;
        signatures = Grows-refl d.signature_events;
        moves = λ i a k. (a, k, ([], refl));
      })

insert_document-Keeps : (r : DocumentRow) → Keeps Follows (insert_document r)
unfolding insert_document run
insert_document-Keeps r = Follows->>= (Follows-query _) λ taken.
    Follows->> (Follows-throw_if taken _) (
      Keeps-write Follows-IsPreorder _ λ d. record {
        audit = Grows-refl d.audit_logs;
        log = Grows-refl d.workflow_transitions;
        versions = Grows-refl d.agreement_versions;
        documents = (_, refl);
        signatures = Grows-refl d.signature_events;
        moves = λ i a k. (a, k, ([], refl));
      })

pub add_signature_event-Keeps : (e : SignatureEventRow) → Keeps Follows (add_signature_event e)
unfolding add_signature_event run
add_signature_event-Keeps e = Keeps-write Follows-IsPreorder _ λ d. record {
  audit = Grows-refl d.audit_logs;
  log = Grows-refl d.workflow_transitions;
  versions = Grows-refl d.agreement_versions;
  documents = Grows-refl d.agreement_documents;
  signatures = (_, refl);
  moves = λ i a k. (a, k, ([], refl));
}

store_version-Keeps :
    (params : StoreParams) (hash : ℕ) (key : FileKey) (state : Option SignatureState)
    → Keeps Follows (store_version params hash key state)
unfolding store_version
store_version-Keeps params hash key none = Follows-return none
store_version-Keeps params hash key (some state) = search (steps, insert_version-Keeps) depth 40

module _ (platform : Platform) where
  pub store-Keeps : (params : StoreParams) → Keeps Follows (store platform params)
  unfolding store
  store-Keeps params =
      search (steps, put_object-Keeps, store_version-Keeps, insert_document-Keeps) depth 40

  pub begin_signature-Keeps :
      (number : Text) (version : ℕ) (source : FileKey) (field : SigningParty)
      (appearance : Appearance)
      → Keeps Follows (begin_signature platform number version source field appearance)
  unfolding begin_signature
  begin_signature-Keeps number version source field appearance =
      search (steps, get_object-Keeps, exists_object-Keeps, put_object-Keeps) depth 40

  pub complete_signature-Keeps :
      (params : CompleteParams) → Keeps Follows (complete_signature platform params)
  unfolding complete_signature
  complete_signature-Keeps params = search (steps, get_object-Keeps, store-Keeps) depth 40

pub current_version-Keeps : (i version : ℕ) → Keeps Follows (current_version i version)
unfolding current_version
current_version-Keeps i version = search steps

insert_recipients-Keeps :
    (notification_id : ℕ) (parties : List PartyRow)
    → Keeps Follows (insert_recipients notification_id parties)
unfolding insert_recipients
insert_recipients-Keeps n [] = search steps
insert_recipients-Keeps n (p ∷ parties) =
    Follows->>= Follows-fresh_id
      λ id. Follows->> (search write-apart) (insert_recipients-Keeps n parties)

pub enqueue-Keeps : (req : EnqueueRequest) → Keeps Follows (enqueue req)
unfolding enqueue
enqueue-Keeps req = search (steps, write-apart, insert_recipients-Keeps) depth 40

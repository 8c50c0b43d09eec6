-- ===== src/History/Steps.antt =====
-- The history, for the steps that the services are made of, with the rules that compose them.
use onlineaggrement.Base.{
  ℕ, ◌≡◌, refl, ap, subst, List, [], ◌∷◌, Option, Bool, String, first, ◌==◌, ℕ_eq, ◌∙◌,
}
use onlineaggrement.Errors.{DomainError, Result}
use onlineaggrement.Database.{Db, Datum, AuditEvent}
use onlineaggrement.Service.{
  M, ◌>>=◌, ◌>>◌, return, throw, throw_if, or_throw, from_result, branch, query, write,
  current_time, fresh_id, transaction, catch,
}
use onlineaggrement.Service.Keeps.{
  Keeps, Keeps->>=, Keeps->>, Keeps-return, Keeps-throw, Keeps-throw_if, Keeps-branch,
  Keeps-or_throw, Keeps-from_result, Keeps-query, Keeps-write, Keeps-current_time, Keeps-fresh_id,
  Keeps-transaction, Keeps-catch,
}
use onlineaggrement.Audit.{AuditContext, audit_record}
use onlineaggrement.Workflow.Traces.{run}
use onlineaggrement.Workflow.Service.{TransitionRequest, get_agreement, transition}
use onlineaggrement.Workflow.Corrections.{transition_chain_in, chain_from}
use onlineaggrement.Workflow.Service.Moves.{found}
use onlineaggrement.History.{Grows, Grows-refl, Follows, Follows-IsPreorder}
use onlineaggrement.History.Moves.{transition_in-Keeps}

-- A write to no table of the history.
abbrev pub IsApart : (Db → Db) → Type 0
IsApart f =
    (d : Db)
    → ((f d).agreements ≡ d.agreements)
      × ((f d).audit_logs ≡ d.audit_logs)
      × ((f d).workflow_transitions ≡ d.workflow_transitions)
      × ((f d).agreement_versions ≡ d.agreement_versions)
      × ((f d).agreement_documents ≡ d.agreement_documents)
      × ((f d).signature_events ≡ d.signature_events)

Grows-same : {A : Type 0} (xs ys : List A) → ys ≡ xs → Grows xs ys
Grows-same xs ys h = subst (λ l. Grows l ys) h (Grows-refl ys)

found-same : (d d' : Db) → d'.agreements ≡ d.agreements → (i : ℕ) → found i d' ≡ found i d
found-same d d' h i = ap (λ l. first (λ r. r.id == i) l) h

pub write-apart : (f : Db → Db) → IsApart f → Keeps Follows (write f)
unfolding run
write-apart f h = Keeps-write Follows-IsPreorder f λ d.
    let (agreements, audit, log, versions, documents, signatures) = h d in
    record {
      audit = Grows-same _ _ audit;
      log = Grows-same _ _ log;
      versions = Grows-same _ _ versions;
      documents = Grows-same _ _ documents;
      signatures = Grows-same _ _ signatures;
      moves = λ i a k. (a, found-same d (f d) agreements i ∙ k, ([], refl));
    }

pub audit_record-Keeps :
    (event : AuditEvent) (details : List (String × Datum)) (ctx : AuditContext)
    → Keeps Follows (audit_record event details ctx)
unfolding audit_record run
audit_record-Keeps event details ctx = Keeps-write Follows-IsPreorder _ λ d. record {
  audit = (_, refl);
  log = Grows-refl d.workflow_transitions;
  versions = Grows-refl d.agreement_versions;
  documents = Grows-refl d.agreement_documents;
  signatures = Grows-refl d.signature_events;
  moves = λ i a k. (a, k, ([], refl));
}

pub transition-Keeps : (req : TransitionRequest) → Keeps Follows (transition req)
unfolding transition
transition-Keeps req = Keeps-transaction Follows-IsPreorder (transition_in-Keeps req)

chain_from-Keeps :
    (req : TransitionRequest) (reqs : List TransitionRequest) → Keeps Follows (chain_from req reqs)
unfolding chain_from
chain_from-Keeps req [] = transition_in-Keeps req
chain_from-Keeps req (next ∷ reqs) =
    Keeps->>= Follows-IsPreorder (transition_in-Keeps req) λ _. chain_from-Keeps next reqs

pub transition_chain_in-Keeps :
    (reqs : List TransitionRequest) → Keeps Follows (transition_chain_in reqs)
unfolding transition_chain_in chain_from
transition_chain_in-Keeps [] = Keeps-throw Follows-IsPreorder _
transition_chain_in-Keeps (req ∷ reqs) = chain_from-Keeps req reqs

-- The rules of composition, for the history.
module _ {A B : Type 0} where
  pub Follows->>= :
      {m : M A} {f : A → M B}
      → Keeps Follows m
      → ((a : A) → Keeps Follows (f a))
      → Keeps Follows (m >>= f)
  Follows->>= = Keeps->>= Follows-IsPreorder

  pub Follows->> : {m : M A} {k : M B} → Keeps Follows m → Keeps Follows k → Keeps Follows (m >> k)
  Follows->> = Keeps->> Follows-IsPreorder

module _ {A : Type 0} where
  pub Follows-return : (a : A) → Keeps Follows (return a)
  Follows-return = Keeps-return Follows-IsPreorder

  pub Follows-throw : (e : DomainError) → Keeps Follows (throw {A = A} e)
  Follows-throw = Keeps-throw Follows-IsPreorder

  pub Follows-or_throw : (o : Option A) (e : DomainError) → Keeps Follows (or_throw o e)
  Follows-or_throw = Keeps-or_throw Follows-IsPreorder

  pub Follows-from_result : (r : Result A) → Keeps Follows (from_result r)
  Follows-from_result = Keeps-from_result Follows-IsPreorder

  pub Follows-query : (f : Db → A) → Keeps Follows (query f)
  Follows-query = Keeps-query Follows-IsPreorder

  pub Follows-branch :
      (b : Bool) {m k : M A} → Keeps Follows m → Keeps Follows k → Keeps Follows (branch b m k)
  Follows-branch = Keeps-branch Follows-IsPreorder

  pub Follows-transaction : {m : M A} → Keeps Follows m → Keeps Follows (transaction m)
  Follows-transaction = Keeps-transaction Follows-IsPreorder

  pub Follows-catch :
      {m : M A} {f : DomainError → M A}
      → Keeps Follows m
      → ((e : DomainError) → Keeps Follows (f e))
      → Keeps Follows (catch m f)
  Follows-catch = Keeps-catch Follows-IsPreorder

pub Follows-throw_if : (b : Bool) (e : DomainError) → Keeps Follows (throw_if b e)
Follows-throw_if = Keeps-throw_if Follows-IsPreorder

pub Follows-current_time : Keeps Follows current_time
Follows-current_time = Keeps-current_time Follows-IsPreorder

pub Follows-fresh_id : Keeps Follows fresh_id
Follows-fresh_id = Keeps-fresh_id Follows-IsPreorder

pub ruleset steps = (
  Follows->>=, Follows->>, Follows-return, Follows-throw, Follows-or_throw, Follows-from_result,
  Follows-query, Follows-branch, Follows-transaction, Follows-catch, Follows-throw_if,
  Follows-current_time, Follows-fresh_id, audit_record-Keeps, transition_in-Keeps, transition-Keeps,
  transition_chain_in-Keeps,
)

pub get_agreement-Keeps : (i : ℕ) → Keeps Follows (get_agreement i)
unfolding get_agreement
get_agreement-Keeps i = search steps

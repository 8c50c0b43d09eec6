-- ===== src/Lib.antt =====
-- A verification library for the online agreement portal: agreements that an agent, an employee and
-- the MD sign one after the other, with stamps, an external signing provider and an audit log.
--
-- The parts. Controllers (api/src/*/*.controller.ts) and scheduled jobs call services; a service
-- reads and writes PostgreSQL through knex, mostly inside a database transaction, and puts files
-- into a write-once object store. One service alone, the workflow, writes the status of an
-- agreement, through one transition table. The signing service couples a change of state with its
-- effect on the document; it calls the workflow, the documents, the provider of signatures, the
-- stamps, the notifications and the audit log.
--
-- How code is modelled. World (Database) is the database, the object store, the clock and the next
-- identifier. A table is the list of its rows in order of insertion, with the columns that the
-- modelled code uses. A method is a function of type M (Service): it takes a world and is done with
-- a value, or fails with an error, in a world. Each await is one step. knex.transaction is
-- `transaction`, which restores the database, and not the object store, on an error; a method that
-- joins the transaction of its caller has the suffix _in where both exist. A unique index is a
-- Boolean test before the insertion. Names are the source's, in snake case.
--
-- The files:
--   Base            lists, tables, texts and tests that the others share
--   Errors          api/src/common/errors/domain.errors.ts
--   Database        api/migrations: the rows, the constraints of a closed agreement, and the world
--   Service         knex and exceptions; Keeps and Unchanged compose facts about methods
--   Audit           api/src/audit/audit.service.ts; Chain: the trigger audit_logs_chain of
--                   api/migrations/009_audit_immutability.ts and verifyChain, in tables of its
--                   own; Detection and Verification are about them
--   Workflow        States and Rules: api/src/workflow/state-machine.ts; Service and Corrections:
--                   api/src/workflow/workflow.service.ts; Sweep: expireOverdueAgreements of
--                   api/src/jobs/scheduled-jobs.service.ts; Gate and its Terms, Traces and
--                   Order are about them
--   Stamps          api/src/stamps/stamps.service.ts and api/migrations/005_stamps.ts
--   Esign           api/src/esign/esign.service.ts; Ledger and Replay are about its callbacks
--   Documents       api/src/documents/documents.service.ts and storage/storage.driver.ts;
--                   Composing: its generate, composeFromUpload and storeStampScan
--   Pdf             api/src/documents/pdf: Scanning and Patterns: the searches and the regular
--                   expressions; Objects and Fields: pdf-objects.ts; Revisions and Slots:
--                   incremental-signer.ts; Verifier and Der: verifier.ts; Termination, Appended,
--                   Filled, ReadBack and Extraction are about them
--   Notifications   api/src/notifications/notifications.service.ts: enqueue; Mails:
--                   renderBody; Dispatch: dispatchPending; Reminders: sendDueReminders; Attempts is about
--                   the dispatch
--   Agreements      api/src/agreements/agreements.service.ts: Parties and Drafts: create; Editing:
--                   updateDraft; Composing: the stamp, the upload and the bank's document;
--                   Generation: generate, get, party and documentUrl; Numbers:
--                   api/migrations/010_agreement_numbering.ts; Settling, Tables and Creation are
--                   about create, Readiness is about Composing
--   Auth            api/src/auth/auth.service.ts; Guard: auth.guard.ts; Logins and Links are about
--                   what lets whom in
--   Banks           api/src/banks/banks.service.ts: Documents: the documents of a bank, which
--                   Activation is about
--   Users           api/src/users/users.service.ts; Passwords: generatePassword, and hashPassword of
--                   api/src/auth/auth.service.ts; Administrators is about setActive
--   Signing         Parties, Ceremony, Completion and Rejection: api/src/signing/signing.service.ts;
--                   Recovery: the callback of api/src/signing/signing.controller.ts and the
--                   reconciliation of api/src/jobs; Reference: api/migrations/017_execution_reference.ts;
--                   Tokens: api/src/common/util/crypto.util.ts; the others are about them
--   History         a relation between databases that the services respect
--   Portal          the calls of the controllers and of the scheduler, the registration of stamps and
--                   the writes to templates left aside, one after the other, and the worlds that
--                   they reach
--   The modules named Examples hold concrete worlds, tests and applications of the theorems.
--
-- Parameters. Platform (Documents) is what the services use of the PDF code, of SHA-256, of the
-- calendar and of random bytes; Authoring (Documents.Composing) is the renderer and the composer
-- of documents; Mailer (Notifications.Mails) sends emails and may refuse any; Hashing
-- (Users.Passwords) and Credentials (Auth) are bcrypt, the random tokens and the signing of
-- tokens; Forge (Pdf.Verifier) reads CMS; Provider (Esign) is the external signing service, whose
-- answers may depend on the time and may be errors; Audit takes the digest of a record and of the
-- hash before it. All of them are arbitrary: no hypothesis is made on them. The services are
-- modelled over Platform, and Pdf is modelled apart from them.
--
-- Choices. Loops run over lists, and `digits` has fuel, the number itself plus one, which exceeds
-- the number of its digits. The parser of PDF files has fuel too: one more than the length of the
-- text for the subsections of a section, and one more than the length of the document for the chain
-- of sections, where no place is visited twice. Calls of services follow one another: the interleaving of the steps of
-- two calls is not modelled, so row locks are plain reads and a conflict of row versions does not
-- arise. Identifiers are numbers and are never handed out twice. Days have 86400000 milliseconds.
-- A text whose code units the source reads is a list of them; other texts are compared only.
-- Message texts are left out of the errors.
-- A statement of the database throws where a unique index or one of the modelled constraints is
-- violated, and not for other reasons, such as a lost connection; the identifier that is drawn at
-- random for an unauthentic callback is taken to be new. A comparison of e-mail addresses in SQL is
-- that of the type citext, for which letters have no case. The length of a text in SQL counts a
-- surrogate pair once.
--
-- Not modelled: the update trigger of the agreements table and the unique index on agent codes;
-- the rendering of documents; templates; the registration and the recognition of
-- stamps; the lists and reports; the HTTP layer; the web client, which repeats the rules of the API
-- for display.
pub mod Base
pub mod Errors
pub mod Workflow
pub mod Audit
pub mod Database
pub mod Service
pub mod Stamps
pub mod Esign
pub mod Documents
pub mod Notifications
pub mod Signing
pub mod History
pub mod Portal
pub mod Pdf
pub mod Banks
pub mod Users
pub mod Agreements
pub mod Auth

-- ===== src/Agreements.antt =====
-- The life of an agreement before it is signed (api/src/agreements/agreements.service.ts).
pub mod Numbers
pub mod Parties
pub mod Drafts
pub mod Editing
pub mod Composing
pub mod Generation
mod Examples

-- ===== src/Pdf.antt =====
-- The PDF code (api/src/documents/pdf). A document is the list of its bytes, which is also its
-- latin1 text.
pub mod Scanning
pub mod Patterns
pub mod Objects
pub mod Fields
pub mod Revisions
pub mod Slots
pub mod Der
pub mod Verifier
mod Examples

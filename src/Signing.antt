-- ===== src/Signing.antt =====
-- The signing of an agreement (api/src/signing), with the references and tokens that it hands out.
pub mod Tokens
pub mod Reference
pub mod Padding
pub mod Parties
pub mod Ceremony
pub mod Completion
pub mod Effects
pub mod Advances
pub mod Failure
pub mod Outcomes
pub mod Failed
pub mod Rejection
pub mod Recovery
pub mod Worlds
mod Examples

-- ===== src/Workflow.antt =====
-- The workflow of an agreement (api/src/workflow).
pub mod States
pub mod Rules
pub mod Gate
pub mod Traces
pub mod Order
pub mod Service
pub mod Corrections
pub mod Sweep
mod Examples

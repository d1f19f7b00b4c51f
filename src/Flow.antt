-- ===== src/Flow.antt =====
-- The pure decision layer of the update flow (src/updateFlowCore.ts), one child for each group of
-- its functions.
pub mod Hash
pub mod Urls
pub mod Endpoints
pub mod Request
pub mod Verdict
pub mod Plan
mod Tests

-- ===== src/Endpoint.antt =====
-- src/endpoint.ts: the race among endpoints, and the fallback that runs it.
pub mod Race
pub mod Fallback
mod Tests

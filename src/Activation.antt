-- ===== src/Activation.antt =====
-- src/clientActivation.ts over src/clientState.ts: what changes the version that runs.
pub mod State
pub mod Machine
pub mod Run
mod Invariant
mod Laws
mod Reloads
mod Release
mod Superseded
mod Tests

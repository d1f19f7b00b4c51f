-- ===== src/Harmony.antt =====
-- The Harmony platform module (harmony/pushy/src/main/ets): the persisted state, its operations at
-- launch, switch and reset, and the coordination of the native check.
pub mod StateCore
pub mod Store
pub mod Context
pub mod Round
mod Tests

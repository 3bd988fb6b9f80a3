-- ===== src/Core.antt =====
-- crates/sim-platform-core: the provider-neutral contracts.
pub mod Records
pub mod Symbol
pub mod Digest
pub mod Require
pub mod Bundle
pub mod Matrix
pub mod Validation
mod Tests

-- ===== src/Halo.antt =====
-- crates/sim-platform-halo: the Halo glasses proxy.
pub mod Types
pub mod Codec
pub mod Input
pub mod Capsule
mod Tests

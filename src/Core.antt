-- ===== src/Core.antt =====
-- crates/dkgkit-core/src/lib.rs, by parts.
pub mod Error
pub mod Ids
pub mod Threshold
pub mod Session
pub mod Message

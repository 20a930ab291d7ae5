-- ===== src/Kv.antt =====
-- src/state/kv.rs: the key/value store over Redis.
pub mod Scripts
pub mod Simulate
pub mod Effect
pub mod Index
pub mod Store
pub mod Upkeep
pub mod Listing
pub mod Spec

-- ===== src/Prevent.antt =====
-- crates/prevent.
pub mod Key
pub mod Store

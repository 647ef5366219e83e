-- ===== src/Applayer.antt =====
-- crates/applayer.
pub mod Http

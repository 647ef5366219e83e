-- ===== src/Rules.antt =====
-- crates/rules.
pub mod Options
pub mod Model

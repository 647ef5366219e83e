-- ===== src/Engine.antt =====
-- crates/engine.
pub mod Vars
pub mod Eval
pub mod Evaluate

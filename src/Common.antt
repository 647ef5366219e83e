-- ===== src/Common.antt =====
-- crates/common: what the other crates share.
pub mod Bits
pub mod Net
pub mod Config
pub mod Event
pub mod Map
pub mod Int
pub mod Endpoint

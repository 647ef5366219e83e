-- ===== src/Reassembly.antt =====
-- crates/reassembly.
pub mod RangeBuffer
pub mod Policy
pub mod Stream
pub mod Defrag
pub mod Checked
pub mod Normalize
pub mod Flow

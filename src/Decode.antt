-- ===== src/Decode.antt =====
-- crates/decode.
mod Anomaly
mod Layers
mod Transport

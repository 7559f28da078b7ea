-- ===== src/Stats.antt =====
-- The stats report of native/src/registry.rs and the bytes that it is sent as.
pub mod Report
pub mod Encode
pub mod Decode
pub mod Parts
pub mod RoundTrip

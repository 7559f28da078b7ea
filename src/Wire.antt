-- ===== src/Wire.antt =====
-- Numbers as bytes: `to_le_bytes`, `to_be_bytes` and their readers.
pub mod Bytes
pub mod Reader
pub mod Event
pub mod Channel

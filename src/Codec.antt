-- ===== src/Codec.antt =====
-- apps/web/protocol/codec.ts, auth.ts and types.ts: what a frame is, and how it is checked.
pub mod Base64
pub mod Identifiers
pub mod Utf8
pub mod Frames
pub mod Values
pub mod Validate
pub mod Scan
pub mod WellFormed

-- ===== src/Codec.antt =====
-- The record formats of s3stream/s3stream-codec.
pub mod Wire
pub mod Record
pub mod WalRecord

-- ===== src/Object.antt =====
-- The format of objects: s3stream/s3stream-object/src.
pub mod Index

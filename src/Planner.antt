-- ===== src/Planner.antt =====
-- The planner of stream-set compaction (s3stream/s3stream-core/src/compact/plan.rs): which blocks
-- of which objects become which new objects, and in which stages.
pub mod Block
pub mod Builder
pub mod Entries
pub mod Group
pub mod Objects
pub mod Selection
pub mod Stages

-- ===== src/Metadata.antt =====
-- The replicated metadata plane, picomq/pico-metadata.
pub mod Types
pub mod State
pub mod Nodes
pub mod Destroyed
pub mod Streams
pub mod Placement
pub mod Transfers
pub mod Deletion
pub mod Leases
pub mod Objects
pub mod Commit
pub mod Compaction
pub mod Kv
pub mod Apply
pub mod Indexed
pub mod Evolution
pub mod Fencing
pub mod Query
pub mod Wire
pub mod CommandCodec
pub mod Snapshot

-- ===== src/Tests.antt =====
-- The theorems at concrete inputs.
mod Log
mod Streams
mod Objects
mod Codec
mod CommandCodec
mod ObjectIndex
mod Planner
mod Selection
mod Snapshot

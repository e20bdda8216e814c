-- ===== src/Lib.antt =====
-- streamstack: the metadata plane of PicoMQ, and the codecs, the object index and the compaction
-- planner of s3stream.
--
-- The metadata plane (picomq/pico-metadata) is a deterministic state machine: nodes, streams, object
-- leases, committed objects, a queue of destroyed objects and a key-value store, changed by a log of
-- commands that `apply` runs one after another, and read by queries. The stream engine (s3stream)
-- stands on its answers; what it appends are record batches, which the codec lays out. Commands
-- and results travel in a binary form of their own. Batches are gathered into blocks of objects,
-- an object ends with the index of its blocks, and stream-set compaction plans, from such indexes,
-- which blocks go to which new objects.
--
-- Prelude     shared names: native numbers, lists, and integers with the wrap-around of u64 and i64
-- OrdMap      the interface of `im::OrdMap`, a crate outside the repository, as operations and laws
--             (keys, insertion, removal, ordered iteration, ranges); OrdMap.Sorted meets it with
--             sorted lists, OrdMap.Keys orders the keys in use
-- Metadata    picomq/pico-metadata/src
--   Types, State                  command.rs, error.rs, state.rs, and the requests of
--                                 s3stream/s3stream-core/src/manager.rs
--   Nodes, Streams, Placement, Transfers, Deletion, Leases, Objects, Commit, Compaction,
--   Destroyed, Kv, Apply          apply.rs, one function per handler, under the handler's name
--   Query                         query.rs
--   Wire, CommandCodec            codec.rs
--   Snapshot                      snapshot.rs, with the primitives of Wire
--   Indexed, Evolution, Fencing, and the children of Placement, Commit, Leases and Query
--                                 the proofs
-- Codec       s3stream/s3stream-codec/src: error.rs, codec.rs, record.rs, wal_record.rs and crc.rs;
--             the hash of the crate crc32fast is a parameter
-- Object      s3stream/s3stream-object/src: index.rs (Object.Index)
-- Planner     s3stream/s3stream-core/src/compact/plan.rs: Block and Builder (the blocks, and the
--             window of the builder's last stream), Entries (its BTreeMaps and stable sorts),
--             Objects (compact_objects), Stages (generate_plan_with_cache_limit), Selection (sort,
--             filter, limits and analyze), Group (group_stream_data_blocks and its predicates)
-- Tests       a log of commands on sorted lists (Tests.Log), and each theorem at a concrete input
--
-- A handler takes the state last and returns its result beside the state that it left, in the error
-- case too; `apply` keeps that state on success only, as the code does by running a command on a
-- clone. Loops over lists are recursion on the list, counted loops recursion on the count. Three
-- loops are on fuel: the search of the index, which runs on one more than the number of entries, the
-- rounds that leave objects out of a compaction, two more than the blocks, and the loop of the
-- stages, which runs on twice the blocks and the builders together. They end within it, the last as
-- long as no block is larger than the cache; without fuel they answer `none`. The
-- state of a map is reached through the operations of `OrdMap` alone, so every theorem holds of any
-- map that obeys its laws.
--
-- Unsigned numbers are natural numbers, signed ones integers; additions that may wrap do so at 2^64.
-- A stream, object or sequence number is thought to be in the range of its type. The texts of error
-- messages are left out. Queries that panic on a missing row answer `none`. In the codec a byte
-- string is the list of its bytes, and the calls of BufMut write big-endian numbers, as its
-- documentation says.
--
-- In the codecs of commands and snapshots a writer is given the bytes that stand behind what it writes, and a reader
-- returns the bytes that it leaves. A BTreeMap of the planner is a list in the order of its keys, a
-- HashMap a list in whatever order it is read in.
-- The index `hi` of the search, which may come to -1, is kept one higher.
--
-- Not modelled: the tasks around the state machine (lifecycle, manager,
-- sink, view), the objects of the write-ahead log, the writer and reader of objects, the stream
-- engine with its caches and the executors of compaction, the server, the frontend and the clients.
-- These are input and output, asynchronous, or parts that stand apart from what is modelled.
pub mod Prelude
pub mod OrdMap
pub mod Metadata
pub mod Codec
pub mod Object
pub mod Planner
mod Tests

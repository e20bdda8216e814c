-- ===== src/Metadata/Snapshot.antt =====
-- Snapshots of the state (picomq/pico-metadata/src/snapshot.rs), in the primitives of
-- `Metadata.Wire`, which that file repeats. Rows are inserted as they are read, and the secondary
-- indexes are rebuilt. The two errors are those of `Metadata.Wire` of the same names.
pub mod Body
pub mod RoundTrip
pub mod Restored
pub mod Frames
pub mod Refill
pub mod Tables
use streamstack.Prelude.{
  ℕ, zero, suc, ◌+◌, ◌/◌, ◌%◌, ◌^◌, ℤ, pos, negsuc, eqb_ℤ, Bool, true, false, not, ◌&&◌, List, [],
  ◌∷◌, length, ◌==◌, if◌then◌else◌,
}
use streamstack.OrdMap.{OrdMap}
use streamstack.OrdMap.Keys.{Key}
use streamstack.Metadata.Types.{
  Bytes, StreamRow, StreamState, closed, opened, NodeRow, PendingTransfer, S3ObjectType, stream_set,
  stream_only, StreamOffsetRange, S3ObjectMetadata, StreamSetObjectRow, StreamObjectRow,
  CompactOperations,
}
use streamstack.Metadata.State.{MetadataState, empty_state, is_opened}
use streamstack.Metadata.Wire.{
  Decoded, Decoder, value_of, ◌>>=◌, ◌>>◌, pure, fail, unsupported_version, corrupt, put_u8,
  put_u32, put_u64, put_i32, put_i64, put_str, put_items, put_counted, get_u8, get_u32, get_u64,
  get_i32, get_i64, get_str, get_blob, get_counted, ensure_drained,
}
use streamstack.Metadata.CommandCodec.Requests.{put_operation, get_operation}
use streamstack.Metadata.CommandCodec.Results.{put_state, get_state}

-- A count of 64 bits, and the entries of a map.
unfoldable pub put_rows : {A : Type 0} → (A → Bytes → Bytes) → List A → Bytes → Bytes
put_rows put rows rest = put_u64 (length rows % 2 ^ 64) (put_items put rows rest)

-- Rows read one after another, each given to the state.
unfoldable pub insert_each : {A S : Type 0} → Decoder A → (A → S → S) → ℕ → S → Decoder S
insert_each get put zero s = pure s
insert_each get put (suc n) s = do row ← get; insert_each get put n (put row s)

unfoldable pub insert_rows : {A S : Type 0} → Decoder A → (A → S → S) → S → Decoder S
insert_rows get put s = do count ← get_u64; insert_each get put count s

unfoldable pub put_stream_row : StreamRow → Bytes → Bytes
put_stream_row row rest = put_u64 row.stream_id (
    put_i64 row.epoch (
      put_u64 row.start_offset
        (put_u64 row.end_offset (put_state row.state (put_i32 row.node_id rest)))))

unfoldable pub get_stream_row : Decoder StreamRow
get_stream_row = do
  stream_id ← get_u64
  epoch ← get_i64
  start_offset ← get_u64
  end_offset ← get_u64
  state ← get_state
  node_id ← get_i32
  pure (record {
    stream_id = stream_id;
    epoch = epoch;
    start_offset = start_offset;
    end_offset = end_offset;
    state = state;
    node_id = node_id;
  })

unfoldable pub put_node_row : NodeRow → Bytes → Bytes
put_node_row row rest =
    put_i32 row.node_id (put_i64 row.epoch (put_str row.http_address (put_u32 row.slots rest)))

unfoldable pub get_node_row : Decoder NodeRow
get_node_row = do
  node_id ← get_i32
  epoch ← get_i64
  http_address ← get_str
  slots ← get_u32
  pure (record { node_id = node_id; epoch = epoch; http_address = http_address; slots = slots })

unfoldable pub put_lease : ℕ × ℤ → Bytes → Bytes
put_lease (i, deadline) rest = put_u64 i (put_i64 deadline rest)

unfoldable pub get_lease : Decoder (ℕ × ℤ)
get_lease = do i ← get_u64; deadline ← get_i64; pure (i, deadline)

abbrev pub type_byte : S3ObjectType → ℕ
type_byte stream_set = 0
type_byte stream_only = 1

unfoldable pub put_type : S3ObjectType → Bytes → Bytes
put_type t rest = put_u8 (type_byte t) rest

unfoldable pub get_type : Decoder S3ObjectType
get_type = do
  b ← get_u8
  if b == 0 then pure stream_set else if b == 1 then pure stream_only else fail corrupt

unfoldable pub put_offset_range : StreamOffsetRange → Bytes → Bytes
put_offset_range r rest = put_u64 r.stream_id (put_u64 r.start_offset (put_u64 r.end_offset rest))

unfoldable pub get_offset_range : Decoder StreamOffsetRange
get_offset_range = do
  stream_id ← get_u64
  start_offset ← get_u64
  end_offset ← get_u64
  pure (record { stream_id = stream_id; start_offset = start_offset; end_offset = end_offset })

unfoldable pub put_object : S3ObjectMetadata → Bytes → Bytes
put_object o rest = put_u64 o.object_id (
    put_type o.object_type (
      put_u64 o.object_size (
        put_u32 o.attributes (
          put_i64 o.committed_timestamp_ms
            (put_i64 o.data_timestamp_ms (put_counted put_offset_range o.offset_ranges rest))))))

unfoldable pub get_object : Decoder S3ObjectMetadata
get_object = do
  object_id ← get_u64
  object_type ← get_type
  object_size ← get_u64
  attributes ← get_u32
  committed_timestamp_ms ← get_i64
  data_timestamp_ms ← get_i64
  offset_ranges ← get_counted get_offset_range
  pure (record {
    object_id = object_id;
    object_type = object_type;
    offset_ranges = offset_ranges;
    object_size = object_size;
    attributes = attributes;
    committed_timestamp_ms = committed_timestamp_ms;
    data_timestamp_ms = data_timestamp_ms;
  })

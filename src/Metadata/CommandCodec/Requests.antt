-- ===== src/Metadata/CommandCodec/Requests.antt =====
-- The wire form of the two commit requests.
use streamstack.Prelude.{ℕ, ◌==◌, if◌then◌else◌}
use streamstack.Metadata.Types.{
  Bytes, ObjectStreamRange, StreamObject, CommitStreamSetObjectRequest, CompactStreamObjectRequest,
  CompactOperations, delete, keep_data, deep_delete,
}
use streamstack.Metadata.Wire.{
  Decoder, ◌>>=◌, pure, fail, corrupt, put_u8, put_u32, put_u64, put_counted, get_u8, get_u32,
  get_u64, get_counted,
}

unfoldable pub put_range : ObjectStreamRange → Bytes → Bytes
put_range range rest = put_u64 range.stream_id (
    put_u64 range.epoch
      (put_u64 range.start_offset (put_u64 range.end_offset (put_u64 range.size rest))))

unfoldable pub get_range : Decoder ObjectStreamRange
get_range = do
  stream_id ← get_u64
  epoch ← get_u64
  start_offset ← get_u64
  end_offset ← get_u64
  size ← get_u64
  pure (record {
    stream_id = stream_id;
    epoch = epoch;
    start_offset = start_offset;
    end_offset = end_offset;
    size = size;
  })

unfoldable pub put_stream_object : StreamObject → Bytes → Bytes
put_stream_object o rest = put_u64 o.object_id (
    put_u64 o.object_size (
      put_u64 o.stream_id
        (put_u64 o.start_offset (put_u64 o.end_offset (put_u32 o.attributes rest)))))

unfoldable pub get_stream_object : Decoder StreamObject
get_stream_object = do
  object_id ← get_u64
  object_size ← get_u64
  stream_id ← get_u64
  start_offset ← get_u64
  end_offset ← get_u64
  attributes ← get_u32
  pure (record {
    object_id = object_id;
    object_size = object_size;
    stream_id = stream_id;
    start_offset = start_offset;
    end_offset = end_offset;
    attributes = attributes;
  })

unfoldable pub put_commit_request : CommitStreamSetObjectRequest → Bytes → Bytes
put_commit_request r rest = put_u64 r.object_id (
    put_u64 r.object_size (
      put_u32 r.attributes (
        put_counted put_range r.stream_ranges (
          put_counted put_stream_object r.stream_objects
            (put_counted put_u64 r.compacted_object_ids rest)))))

unfoldable pub get_commit_request : Decoder CommitStreamSetObjectRequest
get_commit_request = do
  object_id ← get_u64
  object_size ← get_u64
  attributes ← get_u32
  stream_ranges ← get_counted get_range
  stream_objects ← get_counted get_stream_object
  compacted_object_ids ← get_counted get_u64
  pure (record {
    object_id = object_id;
    object_size = object_size;
    attributes = attributes;
    stream_ranges = stream_ranges;
    stream_objects = stream_objects;
    compacted_object_ids = compacted_object_ids;
  })

abbrev pub operation_byte : CompactOperations → ℕ
operation_byte delete = 0
operation_byte keep_data = 1
operation_byte deep_delete = 2

unfoldable pub put_operation : CompactOperations → Bytes → Bytes
put_operation op rest = put_u8 (operation_byte op) rest

unfoldable pub get_operation : Decoder CompactOperations
get_operation = do
  byte ← get_u8
  if byte == 0
      then pure delete
      else if byte == 1
      then pure keep_data
      else if byte == 2
      then pure deep_delete
      else fail corrupt

unfoldable pub put_compact_request : CompactStreamObjectRequest → Bytes → Bytes
put_compact_request r rest = put_u64 r.object_id (
    put_u64 r.object_size (
      put_u64 r.stream_id (
        put_u64 r.stream_epoch (
          put_u64 r.start_offset (
            put_u64 r.end_offset (
              put_u32 r.attributes (
                put_counted put_u64 r.source_object_ids
                  (put_counted put_operation r.operations rest))))))))

unfoldable pub get_compact_request : Decoder CompactStreamObjectRequest
get_compact_request = do
  object_id ← get_u64
  object_size ← get_u64
  stream_id ← get_u64
  stream_epoch ← get_u64
  start_offset ← get_u64
  end_offset ← get_u64
  attributes ← get_u32
  source_object_ids ← get_counted get_u64
  operations ← get_counted get_operation
  pure (record {
    object_id = object_id;
    object_size = object_size;
    stream_id = stream_id;
    stream_epoch = stream_epoch;
    start_offset = start_offset;
    end_offset = end_offset;
    source_object_ids = source_object_ids;
    operations = operations;
    attributes = attributes;
  })

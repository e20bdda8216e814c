-- ===== src/Metadata/CommandCodec/RoundTrip.antt =====
-- Commands, batches and results are read back from their wire form.
use streamstack.Prelude.{ℕ, ◌^◌, ◌<◌, ◌≡◌, refl, List, [], ◌∷◌, none, some}
use streamstack.Metadata.Types
use streamstack.Metadata.Types.{
  Bytes, MetadataCommand, MetadataResult, StreamState, ObjectStreamRange, StreamObject,
  StreamMetadata, CommitStreamSetObjectRequest, CompactStreamObjectRequest, CompactOperations,
  delete, keep_data, deep_delete, closed, opened,
}
use streamstack.Codec.Record.RoundTrip.{IsI32}
use streamstack.Metadata.Wire.{
  ok, put_u8, put_u64, put_counted, get_u8, get_u64, get_counted, check_version, ensure_drained,
  codec_version, err, corrupt,
}
use streamstack.Metadata.Wire.Laws.{
  IsI64, IsText, Short, Each, Reads, get_u32-put_u32, get_u64-put_u64, get_i32-put_i32,
  get_i64-put_i64, get_str-put_str, get_blob-put_str, get_counted-put_counted,
}
use streamstack.Metadata.CommandCodec.Requests.{
  put_range, get_range, put_stream_object, get_stream_object, put_commit_request,
  get_commit_request, put_operation, get_operation, put_compact_request, get_compact_request,
}
use streamstack.Metadata.CommandCodec.Results.{put_state, get_state, encode_result, decode_result}
use streamstack.Metadata.CommandCodec.{
  put_command_body, get_command_body, encode_command, decode_command, encode_batch, decode_batch,
}

abbrev pub IsU64 : ℕ → Type 0
IsU64 n = n < 2 ^ 64

abbrev pub IsU32 : ℕ → Type 0
IsU32 n = n < 2 ^ 32

abbrev pub RangeFits : ObjectStreamRange → Type 0
RangeFits r =
    IsU64 r.stream_id × IsU64 r.epoch × IsU64 r.start_offset × IsU64 r.end_offset × IsU64 r.size

abbrev pub StreamObjectFits : StreamObject → Type 0
StreamObjectFits o =
    IsU64 o.object_id
    × IsU64 o.object_size
    × IsU64 o.stream_id
    × IsU64 o.start_offset
    × IsU64 o.end_offset
    × IsU32 o.attributes

pub record CommitFits (r : CommitStreamSetObjectRequest) : Type 0 where
  pub object_id : IsU64 r.object_id
  pub object_size : IsU64 r.object_size
  pub attributes : IsU32 r.attributes
  pub stream_ranges : Short r.stream_ranges × Each RangeFits r.stream_ranges
  pub stream_objects : Short r.stream_objects × Each StreamObjectFits r.stream_objects
  pub compacted_object_ids : Short r.compacted_object_ids × Each IsU64 r.compacted_object_ids

pub record CompactFits (r : CompactStreamObjectRequest) : Type 0 where
  pub object_id : IsU64 r.object_id
  pub object_size : IsU64 r.object_size
  pub stream_id : IsU64 r.stream_id
  pub stream_epoch : IsU64 r.stream_epoch
  pub start_offset : IsU64 r.start_offset
  pub end_offset : IsU64 r.end_offset
  pub attributes : IsU32 r.attributes
  pub source_object_ids : Short r.source_object_ids × Each IsU64 r.source_object_ids
  pub operations : Short r.operations

get_range-put_range : (r : ObjectStreamRange) → RangeFits r → Reads get_range put_range r
unfolding get_range put_range
get_range-put_range r h rest = rw (
  get_u64-put_u64 r.stream_id h.0,
  get_u64-put_u64 r.epoch h.1,
  get_u64-put_u64 r.start_offset h.2,
  get_u64-put_u64 r.end_offset h.3,
  get_u64-put_u64 r.size h.4,
)

get_stream_object-put_stream_object :
    (o : StreamObject) → StreamObjectFits o → Reads get_stream_object put_stream_object o
unfolding get_stream_object put_stream_object
get_stream_object-put_stream_object o h rest = rw (
  get_u64-put_u64 o.object_id h.0,
  get_u64-put_u64 o.object_size h.1,
  get_u64-put_u64 o.stream_id h.2,
  get_u64-put_u64 o.start_offset h.3,
  get_u64-put_u64 o.end_offset h.4,
  get_u32-put_u32 o.attributes h.5,
)

pub get_operation-put_operation :
    (op : CompactOperations) → Unit {0} → Reads get_operation put_operation op
unfolding get_operation put_operation get_u8
get_operation-put_operation delete h rest = refl
get_operation-put_operation keep_data h rest = refl
get_operation-put_operation deep_delete h rest = refl

any_operations : (ops : List CompactOperations) → Each (λ _. Unit {0}) ops
any_operations [] = tt
any_operations (op ∷ ops) = (tt, any_operations ops)

ids_read :
    (ids : List ℕ)
    → Short ids × Each IsU64 ids
    → Reads (get_counted get_u64) (put_counted put_u64) ids
ids_read ids h = get_counted-put_counted get_u64 put_u64 IsU64 get_u64-put_u64 ids h.0 h.1

get_commit_request-put_commit_request :
    (r : CommitStreamSetObjectRequest)
    → CommitFits r
    → Reads get_commit_request put_commit_request r
unfolding get_commit_request put_commit_request
get_commit_request-put_commit_request r h rest = rw (
  get_u64-put_u64 r.object_id h.object_id,
  get_u64-put_u64 r.object_size h.object_size,
  get_u32-put_u32 r.attributes h.attributes,
  get_counted-put_counted get_range put_range RangeFits get_range-put_range r.stream_ranges
      h.stream_ranges.0 h.stream_ranges.1,
  get_counted-put_counted get_stream_object put_stream_object StreamObjectFits
      get_stream_object-put_stream_object r.stream_objects h.stream_objects.0 h.stream_objects.1,
  ids_read r.compacted_object_ids h.compacted_object_ids,
)

get_compact_request-put_compact_request :
    (r : CompactStreamObjectRequest)
    → CompactFits r
    → Reads get_compact_request put_compact_request r
unfolding get_compact_request put_compact_request
get_compact_request-put_compact_request r h rest = rw (
  get_u64-put_u64 r.object_id h.object_id,
  get_u64-put_u64 r.object_size h.object_size,
  get_u64-put_u64 r.stream_id h.stream_id,
  get_u64-put_u64 r.stream_epoch h.stream_epoch,
  get_u64-put_u64 r.start_offset h.start_offset,
  get_u64-put_u64 r.end_offset h.end_offset,
  get_u32-put_u32 r.attributes h.attributes,
  ids_read r.source_object_ids h.source_object_ids,
  get_counted-put_counted get_operation put_operation (λ _. Unit {0}) get_operation-put_operation
      r.operations h.operations (any_operations r.operations),
)

-- The fields of a command are in the ranges of their types, and its texts and vectors are not
-- too long for a length of 32 bits.
abbrev pub CommandFits : MetadataCommand → Type 0
CommandFits (Types.register_node n e a w) = IsI32 n × IsI64 e × IsText a × IsU32 w
CommandFits (Types.place_stream i) = IsU64 i
CommandFits (Types.create_stream n e) = IsI32 n × IsI64 e
CommandFits (Types.open_stream n ne i e) = IsI32 n × IsI64 ne × IsU64 i × IsI64 e
CommandFits (Types.trim_stream n ne i e o) = IsI32 n × IsI64 ne × IsU64 i × IsI64 e × IsU64 o
CommandFits (Types.close_stream n ne i e) = IsI32 n × IsI64 ne × IsU64 i × IsI64 e
CommandFits (Types.delete_stream n ne i e) = IsI32 n × IsI64 ne × IsU64 i × IsI64 e
CommandFits (Types.prepare_object n ne c ttl now) =
    IsI32 n × IsI64 ne × IsU32 c × IsI64 ttl × IsI64 now
CommandFits (Types.commit_stream_set_object n ne r now) =
    IsI32 n × IsI64 ne × CommitFits r × IsI64 now
CommandFits (Types.compact_stream_object n ne r now) =
    IsI32 n × IsI64 ne × CompactFits r × IsI64 now
CommandFits (Types.expire_prepared_objects now) = IsI64 now
CommandFits (Types.clean_destroyed_objects ids) = Short ids × Each IsU64 ids
CommandFits (Types.put_kv k v) = IsText k × Short v
CommandFits (Types.put_kv_if_absent k v) = IsText k × Short v
CommandFits (Types.delete_kv k) = IsText k
CommandFits (Types.transfer_stream i from to) = IsU64 i × IsI32 from × IsI32 to
CommandFits (Types.complete_transfer i e) = IsU64 i × IsI64 e
CommandFits (Types.create_streams n ne c) = IsI32 n × IsI64 ne × IsU32 c

body_round_trip : (c : MetadataCommand) → CommandFits c → Reads get_command_body put_command_body c
unfolding get_command_body put_command_body get_u8
body_round_trip (Types.register_node n e a w) h rest =
    rw (get_i32-put_i32 n h.0, get_i64-put_i64 e h.1, get_str-put_str a h.2, get_u32-put_u32 w h.3)
body_round_trip (Types.place_stream i) h rest = rw (get_u64-put_u64 i h)
body_round_trip (Types.create_stream n e) h rest = rw (get_i32-put_i32 n h.0, get_i64-put_i64 e h.1)
body_round_trip (Types.open_stream n ne i e) h rest =
    rw (get_i32-put_i32 n h.0, get_i64-put_i64 ne h.1, get_u64-put_u64 i h.2, get_i64-put_i64 e h.3)
body_round_trip (Types.trim_stream n ne i e o) h rest = rw (
  get_i32-put_i32 n h.0,
  get_i64-put_i64 ne h.1,
  get_u64-put_u64 i h.2,
  get_i64-put_i64 e h.3,
  get_u64-put_u64 o h.4,
)
body_round_trip (Types.close_stream n ne i e) h rest =
    rw (get_i32-put_i32 n h.0, get_i64-put_i64 ne h.1, get_u64-put_u64 i h.2, get_i64-put_i64 e h.3)
body_round_trip (Types.delete_stream n ne i e) h rest =
    rw (get_i32-put_i32 n h.0, get_i64-put_i64 ne h.1, get_u64-put_u64 i h.2, get_i64-put_i64 e h.3)
body_round_trip (Types.prepare_object n ne c ttl now) h rest = rw (
  get_i32-put_i32 n h.0,
  get_i64-put_i64 ne h.1,
  get_u32-put_u32 c h.2,
  get_i64-put_i64 ttl h.3,
  get_i64-put_i64 now h.4,
)
body_round_trip (Types.commit_stream_set_object n ne r now) h rest = rw (
  get_i32-put_i32 n h.0,
  get_i64-put_i64 ne h.1,
  get_i64-put_i64 now h.3,
  get_commit_request-put_commit_request r h.2,
)
body_round_trip (Types.compact_stream_object n ne r now) h rest = rw (
  get_i32-put_i32 n h.0,
  get_i64-put_i64 ne h.1,
  get_i64-put_i64 now h.3,
  get_compact_request-put_compact_request r h.2,
)
body_round_trip (Types.expire_prepared_objects now) h rest = rw (get_i64-put_i64 now h)
body_round_trip (Types.clean_destroyed_objects ids) h rest = rw (ids_read ids h)
body_round_trip (Types.put_kv k v) h rest = rw (get_str-put_str k h.0, get_blob-put_str v h.1)
body_round_trip (Types.put_kv_if_absent k v) h rest =
    rw (get_str-put_str k h.0, get_blob-put_str v h.1)
body_round_trip (Types.delete_kv k) h rest = rw (get_str-put_str k h)
body_round_trip (Types.transfer_stream i from to) h rest =
    rw (get_u64-put_u64 i h.0, get_i32-put_i32 from h.1, get_i32-put_i32 to h.2)
body_round_trip (Types.complete_transfer i e) h rest =
    rw (get_u64-put_u64 i h.0, get_i64-put_i64 e h.1)
body_round_trip (Types.create_streams n ne c) h rest =
    rw (get_i32-put_i32 n h.0, get_i64-put_i64 ne h.1, get_u32-put_u32 c h.2)

-- A command whose fields are in the ranges of their types, whose texts are UTF-8 and whose texts
-- and vectors are shorter than 2^32, is what its encoding decodes to.
pub decode_command-encode_command :
    (c : MetadataCommand) → CommandFits c → decode_command (encode_command c) ≡ ok c
unfolding decode_command encode_command check_version get_u8 ensure_drained
decode_command-encode_command c h = rw (body_round_trip c h)

-- A batch of fewer than 2^32 such commands is what its encoding decodes to, in the same order.
pub decode_batch-encode_batch :
    (commands : List MetadataCommand)
    → Short commands
    → Each CommandFits commands
    → decode_batch (encode_batch commands) ≡ ok commands
unfolding decode_batch encode_batch check_version get_u8 ensure_drained
decode_batch-encode_batch commands s h = rw (
    get_counted-put_counted get_command_body put_command_body CommandFits body_round_trip commands s
      h)

abbrev pub ResultFits : MetadataResult → Type 0
ResultFits Types.unit = Unit
ResultFits (Types.id id) = IsU64 id
ResultFits (Types.count count) = IsU64 count
ResultFits (Types.stream m) =
    IsU64 m.stream_id × IsU64 m.epoch × IsU64 m.start_offset × IsU64 m.end_offset × IsI32 m.node_id
ResultFits (Types.value none) = Unit
ResultFits (Types.value (some value)) = Short value

pub get_state-put_state : (state : StreamState) → Reads get_state put_state state
unfolding get_state put_state get_u8
get_state-put_state closed rest = refl
get_state-put_state opened rest = refl

-- A result whose numbers are in the ranges of their types, and whose value is shorter than 2^32,
-- is what its encoding decodes to.
pub decode_result-encode_result :
    (r : MetadataResult) → ResultFits r → decode_result (encode_result r) ≡ ok r
unfolding decode_result encode_result check_version get_u8 ensure_drained
decode_result-encode_result Types.unit h = refl
decode_result-encode_result (Types.id id) h = rw (get_u64-put_u64 id h)
decode_result-encode_result (Types.count count) h = rw (get_u64-put_u64 count h)
decode_result-encode_result (Types.stream m) h = rw (
  get_u64-put_u64 m.stream_id h.0,
  get_u64-put_u64 m.epoch h.1,
  get_u64-put_u64 m.start_offset h.2,
  get_u64-put_u64 m.end_offset h.3,
  get_state-put_state m.state,
  get_i32-put_i32 m.node_id h.4,
)
decode_result-encode_result (Types.value none) h = refl
decode_result-encode_result (Types.value (some value)) h = rw (get_blob-put_str value h)

-- Behind an encoded command whose fields fit, any further byte makes the decoder refuse the whole
-- as corrupt.
pub trailing_byte_refused :
    (c : MetadataCommand) (b : ℕ) (rest : Bytes)
    → CommandFits c
    → decode_command (put_u8 codec_version (put_command_body c (b ∷ rest))) ≡ err corrupt
unfolding decode_command check_version get_u8 ensure_drained
trailing_byte_refused c b rest h = rw (body_round_trip c h)

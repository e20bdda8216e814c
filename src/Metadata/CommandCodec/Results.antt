-- ===== src/Metadata/CommandCodec/Results.antt =====
-- The wire form of results.
use streamstack.Prelude.{ℕ, none, some, [], ◌==◌, if◌then◌else◌}
use streamstack.Metadata.Types
use streamstack.Metadata.Types.{Bytes, MetadataResult, StreamState, closed, opened}
use streamstack.Metadata.Wire.{
  Decoded, Decoder, value_of, ◌>>=◌, ◌>>◌, pure, fail, unknown_result, corrupt, put_u8, put_u64,
  put_i32, put_str, get_u8, get_u64, get_i32, get_blob, codec_version, check_version,
  ensure_drained,
}

abbrev pub state_byte : StreamState → ℕ
state_byte closed = 0
state_byte opened = 1

unfoldable pub put_state : StreamState → Bytes → Bytes
put_state state rest = put_u8 (state_byte state) rest

unfoldable pub get_state : Decoder StreamState
get_state = do
  byte ← get_u8
  if byte == 0 then pure closed else if byte == 1 then pure opened else fail corrupt

abbrev pub put_result : MetadataResult → Bytes → Bytes
put_result Types.unit rest = put_u8 0 rest
put_result (Types.id id) rest = put_u8 1 (put_u64 id rest)
put_result (Types.count count) rest = put_u8 2 (put_u64 count rest)
put_result (Types.stream m) rest = put_u8 3 (
    put_u64 m.stream_id (
      put_u64 m.epoch (
        put_u64 m.start_offset
          (put_u64 m.end_offset (put_state m.state (put_i32 m.node_id rest))))))
put_result (Types.value (some value)) rest = put_u8 5 (put_str value rest)
put_result (Types.value none) rest = put_u8 6 rest

abbrev pub get_stream_result : Decoder MetadataResult
get_stream_result = do
  stream_id ← get_u64
  epoch ← get_u64
  start_offset ← get_u64
  end_offset ← get_u64
  state ← get_state
  node_id ← get_i32
  pure (
      Types.stream (record {
        stream_id = stream_id;
        epoch = epoch;
        start_offset = start_offset;
        end_offset = end_offset;
        state = state;
        node_id = node_id;
      }))

abbrev pub get_result : Decoder MetadataResult
get_result = do
  tag ← get_u8
  if tag == 0
      then pure Types.unit
      else if tag == 1
      then (do id ← get_u64; pure (Types.id id))
      else if tag == 2
      then (do count ← get_u64; pure (Types.count count))
      else if tag == 3
      then get_stream_result
      else if tag == 5
      then (do value ← get_blob; pure (Types.value (some value)))
      else if tag == 6
      then pure (Types.value none)
      else fail (unknown_result tag)

unfoldable pub encode_result : MetadataResult → Bytes
encode_result result = put_u8 codec_version (put_result result [])

unfoldable pub decode_result : Bytes → Decoded MetadataResult
decode_result bytes =
    value_of ((do check_version; result ← get_result; ensure_drained; pure result) bytes)

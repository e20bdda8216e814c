-- ===== src/Metadata/CommandCodec.antt =====
-- The wire form of commands, batches of commands and results
-- (picomq/pico-metadata/src/codec.rs): a version, a type byte, and the fields in order.
pub mod Requests
pub mod Results
pub mod RoundTrip
use streamstack.Prelude.{ℕ, ℤ, List, [], ◌∷◌, ◌==◌, if◌then◌else◌}
use streamstack.Metadata.Types
use streamstack.Metadata.Types.{Bytes, MetadataCommand}
use streamstack.Metadata.Wire.{
  Decoded, Decoder, value_of, ◌>>=◌, ◌>>◌, pure, fail, unknown_command, put_u8, put_u32, put_u64,
  put_i32, put_i64, put_str, put_counted, get_u8, get_u32, get_u64, get_i32, get_i64, get_str,
  get_blob, get_counted, codec_version, check_version, ensure_drained,
}
use streamstack.Metadata.CommandCodec.Requests.{
  put_commit_request, get_commit_request, put_compact_request, get_compact_request,
}

abbrev pub type_code : MetadataCommand → ℕ
type_code (Types.create_stream _ _) = 1
type_code (Types.open_stream _ _ _ _) = 2
type_code (Types.trim_stream _ _ _ _ _) = 3
type_code (Types.close_stream _ _ _ _) = 4
type_code (Types.delete_stream _ _ _ _) = 5
type_code (Types.prepare_object _ _ _ _ _) = 6
type_code (Types.commit_stream_set_object _ _ _ _) = 7
type_code (Types.compact_stream_object _ _ _ _) = 8
type_code (Types.expire_prepared_objects _) = 9
type_code (Types.register_node _ _ _ _) = 10
type_code (Types.clean_destroyed_objects _) = 11
type_code (Types.put_kv _ _) = 12
type_code (Types.put_kv_if_absent _ _) = 13
type_code (Types.delete_kv _) = 14
type_code (Types.transfer_stream _ _ _) = 15
type_code (Types.complete_transfer _ _) = 16
type_code (Types.create_streams _ _ _) = 17
type_code (Types.place_stream _) = 18

-- The node and its epoch, which most commands begin with.
abbrev pub put_node : ℤ → ℤ → Bytes → Bytes
put_node node_id node_epoch rest = put_i32 node_id (put_i64 node_epoch rest)

abbrev pub put_fields : MetadataCommand → Bytes → Bytes
put_fields (Types.register_node n e address slots) rest =
    put_node n e (put_str address (put_u32 slots rest))
put_fields (Types.create_stream n e) rest = put_node n e rest
put_fields (Types.open_stream n ne i e) rest = put_node n ne (put_u64 i (put_i64 e rest))
put_fields (Types.close_stream n ne i e) rest = put_node n ne (put_u64 i (put_i64 e rest))
put_fields (Types.delete_stream n ne i e) rest = put_node n ne (put_u64 i (put_i64 e rest))
put_fields (Types.trim_stream n ne i e o) rest =
    put_node n ne (put_u64 i (put_i64 e (put_u64 o rest)))
put_fields (Types.prepare_object n ne count ttl now) rest =
    put_node n ne (put_u32 count (put_i64 ttl (put_i64 now rest)))
put_fields (Types.commit_stream_set_object n ne request now) rest =
    put_node n ne (put_i64 now (put_commit_request request rest))
put_fields (Types.compact_stream_object n ne request now) rest =
    put_node n ne (put_i64 now (put_compact_request request rest))
put_fields (Types.expire_prepared_objects now) rest = put_i64 now rest
put_fields (Types.clean_destroyed_objects ids) rest = put_counted put_u64 ids rest
put_fields (Types.put_kv key value) rest = put_str key (put_str value rest)
put_fields (Types.put_kv_if_absent key value) rest = put_str key (put_str value rest)
put_fields (Types.delete_kv key) rest = put_str key rest
put_fields (Types.transfer_stream i from to) rest = put_u64 i (put_i32 from (put_i32 to rest))
put_fields (Types.complete_transfer i e) rest = put_u64 i (put_i64 e rest)
put_fields (Types.create_streams n ne count) rest = put_node n ne (put_u32 count rest)
put_fields (Types.place_stream i) rest = put_u64 i rest

unfoldable pub put_command_body : MetadataCommand → Bytes → Bytes
put_command_body command rest = put_u8 (type_code command) (put_fields command rest)

-- A node and its epoch, and a stream and its epoch, for the commands that read them in a row.
abbrev pub get_node : {A : Type 0} → (ℤ → ℤ → Decoder A) → Decoder A
get_node k = do node_id ← get_i32; node_epoch ← get_i64; k node_id node_epoch

abbrev pub get_stream_epoch : {A : Type 0} → (ℕ → ℤ → Decoder A) → Decoder A
get_stream_epoch k = do stream_id ← get_u64; epoch ← get_i64; k stream_id epoch

abbrev pub get_fields : ℕ → Decoder MetadataCommand
get_fields type_code =
    if type_code == 1
    then get_node (λ n ne. pure (Types.create_stream n ne))
    else if type_code == 2
    then get_node (λ n ne. get_stream_epoch (λ i e. pure (Types.open_stream n ne i e)))
    else if type_code == 3
    then get_node
        (λ n ne. get_stream_epoch (λ i e. get_u64 >>= λ o. pure (Types.trim_stream n ne i e o)))
    else if type_code == 4
    then get_node (λ n ne. get_stream_epoch (λ i e. pure (Types.close_stream n ne i e)))
    else if type_code == 5
    then get_node (λ n ne. get_stream_epoch (λ i e. pure (Types.delete_stream n ne i e)))
    else if type_code == 6
    then get_node (λ n ne. do
      count ← get_u32
      ttl ← get_i64
      now ← get_i64
      pure (Types.prepare_object n ne count ttl now))
    else if type_code == 7
    then get_node (λ n ne. do
      now ← get_i64
      request ← get_commit_request
      pure (Types.commit_stream_set_object n ne request now))
    else if type_code == 8
    then get_node (λ n ne. do
      now ← get_i64
      request ← get_compact_request
      pure (Types.compact_stream_object n ne request now))
    else if type_code == 9
    then (do now ← get_i64; pure (Types.expire_prepared_objects now))
    else if type_code == 10
    then get_node (λ n ne. do
      address ← get_str
      slots ← get_u32
      pure (Types.register_node n ne address slots))
    else if type_code == 11
    then (do ids ← get_counted get_u64; pure (Types.clean_destroyed_objects ids))
    else if type_code == 12
    then (do key ← get_str; value ← get_blob; pure (Types.put_kv key value))
    else if type_code == 13
    then (do key ← get_str; value ← get_blob; pure (Types.put_kv_if_absent key value))
    else if type_code == 14
    then (do key ← get_str; pure (Types.delete_kv key))
    else if type_code == 15
    then (do i ← get_u64; from ← get_i32; to ← get_i32; pure (Types.transfer_stream i from to))
    else if type_code == 16
    then get_stream_epoch (λ i e. pure (Types.complete_transfer i e))
    else if type_code == 17
    then get_node (λ n ne. do count ← get_u32; pure (Types.create_streams n ne count))
    else if type_code == 18
    then (do i ← get_u64; pure (Types.place_stream i))
    else fail (unknown_command type_code)

unfoldable pub get_command_body : Decoder MetadataCommand
get_command_body = do type_code ← get_u8; get_fields type_code

unfoldable pub encode_command : MetadataCommand → Bytes
encode_command command = put_u8 codec_version (put_command_body command [])

unfoldable pub decode_command : Bytes → Decoded MetadataCommand
decode_command bytes =
    value_of ((do check_version; command ← get_command_body; ensure_drained; pure command) bytes)

unfoldable pub encode_batch : List MetadataCommand → Bytes
encode_batch commands = put_u8 codec_version (put_counted put_command_body commands [])

unfoldable pub decode_batch : Bytes → Decoded (List MetadataCommand)
decode_batch bytes = value_of (
    (do check_version; commands ← get_counted get_command_body; ensure_drained; pure commands)
      bytes)

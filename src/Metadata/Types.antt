-- ===== src/Metadata/Types.antt =====
-- The rows, requests, commands, results and errors of the metadata plane, which stand in
-- picomq/pico-metadata/src/{state,command,error}.rs, s3stream/s3stream-core/src/manager.rs and
-- s3stream/s3stream-object/src/metadata.rs. Texts and byte strings are lists of bytes.
use streamstack.Prelude.{ℕ, ◌-◌, ◌^◌, ℤ, Option, List}

abbrev pub Bytes : Type 0
Bytes = List ℕ

abbrev pub noop_object_id : ℕ
noop_object_id = 2 ^ 64 - 1

pub data StreamState : Type 0 where
  closed opened : StreamState

pub record StreamRow : Type 0 where
  pub stream_id : ℕ
  pub epoch : ℤ
  pub start_offset : ℕ
  pub end_offset : ℕ
  pub state : StreamState
  pub node_id : ℤ

pub record StreamMetadata : Type 0 where
  pub stream_id : ℕ
  pub epoch : ℕ
  pub start_offset : ℕ
  pub end_offset : ℕ
  pub state : StreamState
  pub node_id : ℤ

pub record NodeRow : Type 0 where
  pub node_id : ℤ
  pub epoch : ℤ
  pub http_address : Bytes
  pub slots : ℕ

pub record PendingTransfer : Type 0 where
  pub from_node : ℤ
  pub to_node : ℤ

pub data S3ObjectType : Type 0 where
  stream_set stream_only : S3ObjectType

pub record StreamOffsetRange : Type 0 where
  pub stream_id : ℕ
  pub start_offset : ℕ
  pub end_offset : ℕ

pub record S3ObjectMetadata : Type 0 where
  pub object_id : ℕ
  pub object_type : S3ObjectType
  pub offset_ranges : List StreamOffsetRange
  pub object_size : ℕ
  pub attributes : ℕ
  pub committed_timestamp_ms : ℤ
  pub data_timestamp_ms : ℤ

pub record StreamSetObjectRow : Type 0 where
  pub node_id : ℤ
  pub object : S3ObjectMetadata

pub record StreamObjectRow : Type 0 where
  pub object : S3ObjectMetadata

pub data CompactOperations : Type 0 where
  delete keep_data deep_delete : CompactOperations

pub record ObjectStreamRange : Type 0 where
  pub stream_id : ℕ
  pub epoch : ℕ
  pub start_offset : ℕ
  pub end_offset : ℕ
  pub size : ℕ

pub record StreamObject : Type 0 where
  pub object_id : ℕ
  pub object_size : ℕ
  pub stream_id : ℕ
  pub start_offset : ℕ
  pub end_offset : ℕ
  pub attributes : ℕ

pub record CommitStreamSetObjectRequest : Type 0 where
  pub object_id : ℕ
  pub object_size : ℕ
  pub attributes : ℕ
  pub stream_ranges : List ObjectStreamRange
  pub stream_objects : List StreamObject
  pub compacted_object_ids : List ℕ

pub record CompactStreamObjectRequest : Type 0 where
  pub object_id : ℕ
  pub object_size : ℕ
  pub stream_id : ℕ
  pub stream_epoch : ℕ
  pub start_offset : ℕ
  pub end_offset : ℕ
  pub source_object_ids : List ℕ
  pub operations : List CompactOperations
  pub attributes : ℕ

pub data MetadataCommand : Type 0 where
  register_node : ℤ → ℤ → Bytes → ℕ → MetadataCommand
  place_stream : ℕ → MetadataCommand
  create_stream : ℤ → ℤ → MetadataCommand
  open_stream : ℤ → ℤ → ℕ → ℤ → MetadataCommand
  trim_stream : ℤ → ℤ → ℕ → ℤ → ℕ → MetadataCommand
  close_stream : ℤ → ℤ → ℕ → ℤ → MetadataCommand
  delete_stream : ℤ → ℤ → ℕ → ℤ → MetadataCommand
  prepare_object : ℤ → ℤ → ℕ → ℤ → ℤ → MetadataCommand
  commit_stream_set_object : ℤ → ℤ → CommitStreamSetObjectRequest → ℤ → MetadataCommand
  compact_stream_object : ℤ → ℤ → CompactStreamObjectRequest → ℤ → MetadataCommand
  expire_prepared_objects : ℤ → MetadataCommand
  clean_destroyed_objects : List ℕ → MetadataCommand
  put_kv : Bytes → Bytes → MetadataCommand
  put_kv_if_absent : Bytes → Bytes → MetadataCommand
  delete_kv : Bytes → MetadataCommand
  transfer_stream : ℕ → ℤ → ℤ → MetadataCommand
  complete_transfer : ℕ → ℤ → MetadataCommand
  create_streams : ℤ → ℤ → ℕ → MetadataCommand

pub data MetadataResult : Type 0 where
  unit : MetadataResult
  id count : ℕ → MetadataResult
  stream : StreamMetadata → MetadataResult
  value : Option Bytes → MetadataResult

-- Without the texts of the messages.
pub data MetadataError : Type 0 where
  stream_not_exist stream_not_closed : ℕ → MetadataError
  stream_fenced expired_epoch : ℕ → ℤ → MetadataError
  node_epoch_mismatch : ℤ → MetadataError
  redundant unexpected : MetadataError

pub data Result {ℓ} (A : Type ℓ) : Type ℓ where
  ok : A → Result A
  err : MetadataError → Result A

-- ===== src/Metadata/Snapshot/Body.antt =====
-- `encode` and `decode` of snapshot.rs: the tables of the state one after another.
use streamstack.Prelude.{ℕ, ℤ, negsuc, eqb_ℤ, not, ◌&&◌, List, [], ◌∷◌, ◌==◌, if◌then◌else◌}
use streamstack.OrdMap.{OrdMap}
use streamstack.OrdMap.Keys.{u64_key, i32_key, pair_key, triple_key, text_key}
use streamstack.Metadata.Types.{
  Bytes, StreamRow, NodeRow, PendingTransfer, StreamOffsetRange, S3ObjectMetadata,
  StreamSetObjectRow, CompactOperations,
}
use streamstack.Metadata.State.{MetadataState, empty_state, is_opened}
use streamstack.Metadata.Wire.{
  Decoded, Decoder, value_of, ◌>>=◌, ◌>>◌, pure, fail, unsupported_version, corrupt, put_u8,
  put_u64, put_i32, put_str, get_u8, get_u64, get_i32, get_str, get_blob, ensure_drained,
}
use streamstack.Metadata.CommandCodec.Requests.{put_operation, get_operation}
use streamstack.Metadata.Snapshot.{
  put_rows, insert_rows, put_stream_row, get_stream_row, put_node_row, get_node_row, put_lease,
  get_lease, put_object, get_object,
}

abbrev pub put_set_row : StreamSetObjectRow → Bytes → Bytes
put_set_row row rest = put_i32 row.node_id (put_object row.object rest)

unfoldable pub get_set_row : Decoder StreamSetObjectRow
get_set_row = do
  node_id ← get_i32
  object ← get_object
  pure (record { node_id = node_id; object = object })

-- A stream object has one range.
abbrev pub with_range :
    S3ObjectMetadata → List StreamOffsetRange → Decoder (StreamOffsetRange × S3ObjectMetadata)
with_range object [] = fail corrupt
with_range object (range ∷ []) = pure (range, object)
with_range object (range ∷ r ∷ ranges) = fail corrupt

unfoldable pub get_stream_object_row : Decoder (StreamOffsetRange × S3ObjectMetadata)
get_stream_object_row = do object ← get_object; with_range object object.offset_ranges

abbrev pub put_destroyed : ℕ × (ℕ × CompactOperations) → Bytes → Bytes
put_destroyed (seq, (object_id, op)) rest = put_u64 seq (put_u64 object_id (put_operation op rest))

unfoldable pub get_destroyed : Decoder (ℕ × (ℕ × CompactOperations))
get_destroyed = do
  seq ← get_u64
  object_id ← get_u64
  op ← get_operation
  pure (seq, (object_id, op))

abbrev pub put_entry : Bytes × Bytes → Bytes → Bytes
put_entry (key, value) rest = put_str key (put_str value rest)

unfoldable pub get_entry : Decoder (Bytes × Bytes)
get_entry = do key ← get_str; value ← get_blob; pure (key, value)

abbrev pub put_transfer : ℕ × PendingTransfer → Bytes → Bytes
put_transfer (stream_id, p) rest = put_u64 stream_id (put_i32 p.from_node (put_i32 p.to_node rest))

unfoldable pub get_transfer : Decoder (ℕ × PendingTransfer)
get_transfer = do
  stream_id ← get_u64
  from_node ← get_i32
  to_node ← get_i32
  pure (stream_id, record { from_node = from_node; to_node = to_node })

module _ ⦃im : OrdMap⦄ where
  open im use {Map, insert, iter}

  unfoldable pub encode : MetadataState → Bytes
  encode s = put_u8 0 (
      put_u64 s.next_stream_id (
        put_rows (λ e. put_stream_row e.1) (iter s.streams)
          (put_rows (λ e. put_node_row e.1) (iter s.nodes)
            (put_u64 s.next_object_id (
              put_rows put_lease (iter s.prepared) (
                put_rows (λ e. put_set_row e.1) (iter s.stream_set_objects)
                  (put_rows (λ e. put_object e.1.object) (iter s.stream_objects)
                    (put_rows put_destroyed (iter s.mark_destroyed) (
                      put_u64 s.next_destroyed_seq (
                        put_rows put_entry (iter s.kv)
                          (put_rows put_transfer (iter s.pending_transfers) [])))))))))))

  abbrev pub insert_stream : StreamRow → MetadataState → MetadataState
  insert_stream row s = record s {
    streams = insert s.streams row.stream_id row;
    opening_by_node =
        if is_opened row.state
        then insert s.opening_by_node (row.node_id, row.stream_id) tt
        else s.opening_by_node;
    placed_by_node =
        if not (is_opened row.state)
          && eqb_ℤ row.epoch (negsuc 0)
          && not (eqb_ℤ row.node_id (negsuc 0))
        then insert s.placed_by_node (row.node_id, row.stream_id) tt
        else s.placed_by_node;
  }

  abbrev pub insert_node : NodeRow → MetadataState → MetadataState
  insert_node row s = record s { nodes = insert s.nodes row.node_id row }

  abbrev pub insert_lease : ℕ × ℤ → MetadataState → MetadataState
  insert_lease (i, deadline) s = record s {
    prepared = insert s.prepared i deadline;
    prepared_by_deadline = insert s.prepared_by_deadline (deadline, i) tt;
  }

  abbrev pub insert_set_ranges : ℕ → List StreamOffsetRange → Map (ℕ × ℕ × ℕ) ℕ → Map (ℕ × ℕ × ℕ) ℕ
  insert_set_ranges object_id [] m = m
  insert_set_ranges object_id (r ∷ ranges) m =
      insert_set_ranges object_id ranges
        (insert m (r.stream_id, r.start_offset, object_id) r.end_offset)

  abbrev pub insert_set_row : StreamSetObjectRow → MetadataState → MetadataState
  insert_set_row row s = record s {
    sso_ranges = insert_set_ranges row.object.object_id row.object.offset_ranges s.sso_ranges;
    sso_by_node = insert s.sso_by_node (row.node_id, row.object.object_id) tt;
    stream_set_objects = insert s.stream_set_objects row.object.object_id row;
  }

  abbrev pub insert_object_row :
      StreamOffsetRange × S3ObjectMetadata → MetadataState → MetadataState
  insert_object_row (range, object) s =
      let key : ℕ × ℕ × ℕ = (range.stream_id, range.start_offset, object.object_id) in
      record s {
        stream_object_ids = insert s.stream_object_ids object.object_id key;
        stream_objects = insert s.stream_objects key (record { object = object });
      }

  abbrev pub insert_destroyed : ℕ × (ℕ × CompactOperations) → MetadataState → MetadataState
  insert_destroyed (seq, (object_id, op)) s = record s {
    mark_destroyed = insert s.mark_destroyed seq (object_id, op);
    destroyed_by_id = insert s.destroyed_by_id object_id seq;
  }

  abbrev pub insert_entry : Bytes × Bytes → MetadataState → MetadataState
  insert_entry (key, value) s = record s { kv = insert s.kv key value }

  abbrev pub insert_transfer : ℕ × PendingTransfer → MetadataState → MetadataState
  insert_transfer (stream_id, p) s = record s {
    pending_transfers = insert s.pending_transfers stream_id p;
  }

  -- The body, behind the version.
  unfoldable pub get_body : Decoder MetadataState
  get_body = do
    next_stream_id ← get_u64
    s ←
        insert_rows get_stream_row insert_stream
          (record empty_state { next_stream_id = next_stream_id })
    s ← insert_rows get_node_row insert_node s
    next_object_id ← get_u64
    s ← insert_rows get_lease insert_lease (record s { next_object_id = next_object_id })
    s ← insert_rows get_set_row insert_set_row s
    s ← insert_rows get_stream_object_row insert_object_row s
    s ← insert_rows get_destroyed insert_destroyed s
    next_destroyed_seq ← get_u64
    s ← insert_rows get_entry insert_entry (record s { next_destroyed_seq = next_destroyed_seq })
    insert_rows get_transfer insert_transfer s

  unfoldable pub decode : Bytes → Decoded MetadataState
  decode bytes = value_of (
      (do
        version ← get_u8
        if version == 0
            then (do s ← get_body; ensure_drained; pure s)
            else fail (unsupported_version version))
        bytes)

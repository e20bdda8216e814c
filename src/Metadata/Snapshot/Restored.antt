-- ===== src/Metadata/Snapshot/Restored.antt =====
-- Restoring a snapshot gives back every table of the state.
use streamstack.Prelude.{ℕ, ◌^◌, ◌<◌, ℤ, ◌≡◌, refl, List, [], ◌∷◌, length}
use streamstack.OrdMap.{OrdMap}
use streamstack.OrdMap.Keys.{u64_key, i32_key, pair_key, triple_key, text_key}
use streamstack.Metadata.Types.{
  Bytes, StreamRow, NodeRow, PendingTransfer, StreamOffsetRange, S3ObjectMetadata,
  StreamSetObjectRow, StreamObjectRow, CompactOperations,
}
use streamstack.Metadata.State.{MetadataState, empty_state}
use streamstack.Codec.Record.RoundTrip.{IsI32}
use streamstack.Metadata.Wire.{ok, get_u8, ensure_drained}
use streamstack.Metadata.Wire.Laws.{
  IsI64, IsText, Short, Each, get_u64-put_u64, get_i32-put_i32, get_str-put_str, get_blob-put_str,
}
use streamstack.Metadata.CommandCodec.RoundTrip.{IsU64, get_operation-put_operation}
use streamstack.Metadata.Snapshot.{
  get_stream_row, put_stream_row, get_node_row, put_node_row, get_lease, put_lease, put_object,
}
use streamstack.Metadata.Snapshot.RoundTrip.{
  RowFits, NodeFits, ObjectFits, fold_rows, insert_rows-put_rows, get_stream_row-put_stream_row,
  get_node_row-put_node_row, get_lease-put_lease, get_object-put_object,
}
use streamstack.Metadata.Snapshot.Body.{
  put_set_row, get_set_row, get_stream_object_row, put_destroyed, get_destroyed, put_entry,
  get_entry, put_transfer, get_transfer, encode, decode, get_body, insert_stream, insert_node,
  insert_lease, insert_set_row, insert_object_row, insert_destroyed, insert_entry, insert_transfer,
}

abbrev pub ObjectKey : Type 0
ObjectKey = ℕ × ℕ × ℕ

get_set_row-put_set_row :
    (e : ℕ × StreamSetObjectRow)
    → (IsI32 e.1.node_id × ObjectFits e.1.object)
    → (rest : Bytes) → get_set_row (put_set_row e.1 rest) ≡ ok (e.1, rest)
unfolding get_set_row
get_set_row-put_set_row (k, r) h rest =
    rw (get_i32-put_i32 r.node_id h.0, get_object-put_object r.object h.1)

-- A stream object stands under its one range and its id.
abbrev pub IsKeyed : ObjectKey × StreamObjectRow → Type 0
IsKeyed (key, row) =
    (range : StreamOffsetRange) × (row.object.offset_ranges ≡ range ∷ [])
    × (key ≡ (range.stream_id, range.start_offset, row.object.object_id))

-- The row that is read of a stream object.
abbrev pub range_of : List StreamOffsetRange → StreamOffsetRange
range_of [] = record { stream_id = 0; start_offset = 0; end_offset = 0 }
range_of (r ∷ ranges) = r

abbrev pub view_object : ObjectKey × StreamObjectRow → StreamOffsetRange × S3ObjectMetadata
view_object (key, row) = (range_of row.object.offset_ranges, row.object)

get_stream_object_row-put_object :
    (e : ObjectKey × StreamObjectRow)
    → (ObjectFits e.1.object × IsKeyed e)
    → (rest : Bytes) → get_stream_object_row (put_object e.1.object rest) ≡ ok (view_object e, rest)
unfolding get_stream_object_row
get_stream_object_row-put_object (key, row) (f, (range, one, at)) rest =
    rw (get_object-put_object row.object f, one) refl

get_destroyed-put_destroyed :
    (e : ℕ × (ℕ × CompactOperations))
    → (IsU64 e.0 × IsU64 e.1.0)
    → (rest : Bytes) → get_destroyed (put_destroyed e rest) ≡ ok (e, rest)
unfolding get_destroyed
get_destroyed-put_destroyed (s, (i, op)) h rest =
    rw (get_u64-put_u64 s h.0, get_u64-put_u64 i h.1, get_operation-put_operation op tt)

get_entry-put_entry :
    (e : Bytes × Bytes)
    → (IsText e.0 × Short e.1)
    → (rest : Bytes) → get_entry (put_entry e rest) ≡ ok (e, rest)
unfolding get_entry
get_entry-put_entry (k, v) h rest = rw (get_str-put_str k h.0, get_blob-put_str v h.1)

get_transfer-put_transfer :
    (e : ℕ × PendingTransfer)
    → (IsU64 e.0 × IsI32 e.1.from_node × IsI32 e.1.to_node)
    → (rest : Bytes) → get_transfer (put_transfer e rest) ≡ ok (e, rest)
unfolding get_transfer
get_transfer-put_transfer (i, p) h rest =
    rw (get_u64-put_u64 i h.0, get_i32-put_i32 p.from_node h.1, get_i32-put_i32 p.to_node h.2)

module _ ⦃im : OrdMap⦄ where
  open im use {Map, get, insert, iter, new}

  -- The entries of a table, each within its types, and fewer than 2^64 of them.
  abbrev pub Rows : {E : Type 0} → (E → Type 0) → List E → Type 0
  Rows P rows = (length rows < 2 ^ 64) × Each P rows

  -- A state within the ranges of its types, of which each row stands under its own id.
  pub record StateFits (s : MetadataState) : Type 0 where
    pub streams : Rows (λ (e : ℕ × StreamRow). RowFits e.1) (iter s.streams)
    pub nodes : Rows (λ (e : ℤ × NodeRow). NodeFits e.1) (iter s.nodes)
    pub prepared : Rows (λ (e : ℕ × ℤ). IsU64 e.0 × IsI64 e.1) (iter s.prepared)
    pub set_objects :
        Rows
          (λ (e : ℕ × StreamSetObjectRow). IsI32 e.1.node_id × ObjectFits e.1.object)
          (iter s.stream_set_objects)
    pub objects :
        Rows
          (λ (e : ObjectKey × StreamObjectRow). ObjectFits e.1.object × IsKeyed e)
          (iter s.stream_objects)
    pub destroyed :
        Rows (λ (e : ℕ × (ℕ × CompactOperations)). IsU64 e.0 × IsU64 e.1.0) (iter s.mark_destroyed)
    pub kv : Rows (λ (e : Bytes × Bytes). IsText e.0 × Short e.1) (iter s.kv)
    pub transfers :
        Rows
          (λ (e : ℕ × PendingTransfer). IsU64 e.0 × IsI32 e.1.from_node × IsI32 e.1.to_node)
          (iter s.pending_transfers)
    pub next_stream : IsU64 s.next_stream_id
    pub next_object : IsU64 s.next_object_id
    pub next_seq : IsU64 s.next_destroyed_seq

  -- The tables of a state, inserted into an empty one, after each loop of the decoder.
  abbrev pub streams_in : MetadataState → MetadataState
  streams_in s =
      fold_rows (λ e. e.1) insert_stream (iter s.streams)
        (record empty_state { next_stream_id = s.next_stream_id })

  abbrev pub nodes_in : MetadataState → MetadataState
  nodes_in s = fold_rows (λ e. e.1) insert_node (iter s.nodes) (streams_in s)

  abbrev pub leases_in : MetadataState → MetadataState
  leases_in s =
      fold_rows (λ e. e) insert_lease (iter s.prepared)
        (record (nodes_in s) { next_object_id = s.next_object_id })

  abbrev pub set_objects_in : MetadataState → MetadataState
  set_objects_in s = fold_rows (λ e. e.1) insert_set_row (iter s.stream_set_objects) (leases_in s)

  abbrev pub objects_in : MetadataState → MetadataState
  objects_in s = fold_rows view_object insert_object_row (iter s.stream_objects) (set_objects_in s)

  abbrev pub destroyed_in : MetadataState → MetadataState
  destroyed_in s = fold_rows (λ e. e) insert_destroyed (iter s.mark_destroyed) (objects_in s)

  abbrev pub kv_in : MetadataState → MetadataState
  kv_in s =
      fold_rows (λ e. e) insert_entry (iter s.kv)
        (record (destroyed_in s) { next_destroyed_seq = s.next_destroyed_seq })

  abbrev pub restore : MetadataState → MetadataState
  restore s = fold_rows (λ e. e) insert_transfer (iter s.pending_transfers) (kv_in s)

  pub decode-encode_rows : (s : MetadataState) → StateFits s → decode (encode s) ≡ ok (restore s)
  unfolding decode encode get_body get_u8 ensure_drained
  decode-encode_rows s f =
      rw
        (
          get_u64-put_u64 s.next_stream_id f.next_stream,
          insert_rows-put_rows get_stream_row (λ (e : ℕ × StreamRow). put_stream_row e.1) (λ e. e.1)
              insert_stream (λ e. RowFits e.1)
              (λ e h rest. get_stream_row-put_stream_row e.1 h rest) (iter s.streams) f.streams,
          insert_rows-put_rows get_node_row (λ (e : ℤ × NodeRow). put_node_row e.1) (λ e. e.1)
              insert_node (λ e. NodeFits e.1) (λ e h rest. get_node_row-put_node_row e.1 h rest)
              (iter s.nodes) f.nodes,
          get_u64-put_u64 s.next_object_id f.next_object,
          insert_rows-put_rows get_lease put_lease (λ e. e) insert_lease
              (λ e. IsU64 e.0 × IsI64 e.1) get_lease-put_lease (iter s.prepared) f.prepared,
          insert_rows-put_rows get_set_row (λ (e : ℕ × StreamSetObjectRow). put_set_row e.1)
              (λ e. e.1) insert_set_row (λ e. IsI32 e.1.node_id × ObjectFits e.1.object)
              get_set_row-put_set_row (iter s.stream_set_objects) f.set_objects,
          insert_rows-put_rows get_stream_object_row
              (λ (e : ObjectKey × StreamObjectRow). put_object e.1.object) view_object
              insert_object_row (λ e. ObjectFits e.1.object × IsKeyed e)
              get_stream_object_row-put_object (iter s.stream_objects) f.objects,
          insert_rows-put_rows get_destroyed put_destroyed (λ e. e) insert_destroyed
              (λ e. IsU64 e.0 × IsU64 e.1.0) get_destroyed-put_destroyed (iter s.mark_destroyed)
              f.destroyed,
          get_u64-put_u64 s.next_destroyed_seq f.next_seq,
          insert_rows-put_rows get_entry put_entry (λ e. e) insert_entry
              (λ e. IsText e.0 × Short e.1) get_entry-put_entry (iter s.kv) f.kv,
          insert_rows-put_rows get_transfer put_transfer (λ e. e) insert_transfer
              (λ e. IsU64 e.0 × IsI32 e.1.from_node × IsI32 e.1.to_node) get_transfer-put_transfer
              (iter s.pending_transfers) f.transfers,
        )
        refl

-- ===== src/Metadata/Snapshot/Tables.antt =====
-- The tables of a restored state hold what those of the original hold.
use streamstack.Prelude.{ℕ, ℤ, ◌≡◌, refl, ap, ◌∙◌, List, [], ◌∷◌}
use streamstack.OrdMap.{OrdMap}
use streamstack.OrdMap.Keys.{u64_key, i32_key, pair_key, triple_key, text_key}
use streamstack.Metadata.Types.{
  Bytes, StreamRow, NodeRow, PendingTransfer, StreamSetObjectRow, StreamObjectRow,
  CompactOperations,
}
use streamstack.Metadata.State.{MetadataState, empty_state}
use streamstack.Metadata.Wire.{ok}
use streamstack.Metadata.Wire.Laws.{Each}
use streamstack.Metadata.Snapshot.Restored.{
  ObjectKey, IsKeyed, view_object, StateFits, restore, decode-encode_rows, streams_in, nodes_in,
  leases_in, set_objects_in, objects_in, destroyed_in, kv_in,
}
use streamstack.Metadata.Snapshot.Body.{
  encode, decode, insert_stream, insert_node, insert_lease, insert_set_row, insert_object_row,
  insert_destroyed, insert_entry, insert_transfer,
}
use streamstack.Metadata.Snapshot.Refill.{insert_list, get-refill, fold_field, fold_frame}
use streamstack.Metadata.Snapshot.Frames.{
  after_kv, after_destroyed, after_objects, after_set_objects, after_leases, after_nodes,
  after_streams, before_nodes, before_leases, before_set_objects, before_objects, before_destroyed,
  before_kv, before_transfers,
}

module _ ⦃im : OrdMap⦄ where
  open im use {Map, get, insert, iter, new}

  -- Each row stands under its own id.
  pub record RowsKeyed (s : MetadataState) : Type 0 where
    pub streams : Each (λ (e : ℕ × StreamRow). e.1.stream_id ≡ e.0) (iter s.streams)
    pub nodes : Each (λ (e : ℤ × NodeRow). e.1.node_id ≡ e.0) (iter s.nodes)
    pub set_objects :
        Each
          (λ (e : ℕ × StreamSetObjectRow). e.1.object.object_id ≡ e.0)
          (iter s.stream_set_objects)
    pub objects : Each IsKeyed (iter s.stream_objects)

  all_rows : {E : Type 0} (rows : List E) → Each (λ e. Unit {0}) rows
  all_rows [] = tt
  all_rows (e ∷ rows) = (tt, all_rows rows)

  object_step :
      (e : ObjectKey × StreamObjectRow)
      → IsKeyed e
      → (t : MetadataState)
      → (insert_object_row (view_object e) t).stream_objects ≡ insert t.stream_objects e.0 e.1
  object_step (key, row) (range, one, at) t = rw (one, at) refl

  restore-streams :
      (s : MetadataState) → RowsKeyed s → (i : ℕ) → get (restore s).streams i ≡ get s.streams i
  restore-streams s k i =
      ap (λ m. get m i)
        (after_streams (λ t. t.streams) s (λ a t. refl) (λ a t. refl) (λ a t. refl) (λ a t. refl)
            (λ a t. refl) (λ a t. refl) (λ a t. refl) (λ a t. refl) (λ a t. refl)
          ∙ (fold_field (λ (e : ℕ × StreamRow). e.1) insert_stream (λ e. e.1.stream_id ≡ e.0)
              (λ t. t.streams) (λ e h t. ap (λ i. insert t.streams i e.1) h) (iter s.streams)
              k.streams (record empty_state { next_stream_id = s.next_stream_id })))
      ∙ get-refill s.streams i

  restore-nodes :
      (s : MetadataState) → RowsKeyed s → (i : ℤ) → get (restore s).nodes i ≡ get s.nodes i
  restore-nodes s k i =
      ap (λ m. get m i)
        (after_nodes (λ t. t.nodes) s (λ a t. refl) (λ a t. refl) (λ a t. refl) (λ a t. refl)
            (λ a t. refl) (λ a t. refl) (λ a t. refl) (λ a t. refl)
          ∙ (fold_field (λ (e : ℤ × NodeRow). e.1) insert_node (λ e. e.1.node_id ≡ e.0)
                (λ t. t.nodes) (λ e h t. ap (λ i. insert t.nodes i e.1) h) (iter s.nodes) k.nodes
                (streams_in s)
              ∙ (ap (insert_list (iter s.nodes)) (before_nodes (λ t. t.nodes) s (λ a t. refl)))))
      ∙ get-refill s.nodes i

  restore-prepared :
      (s : MetadataState) → RowsKeyed s → (i : ℕ) → get (restore s).prepared i ≡ get s.prepared i
  restore-prepared s k i =
      ap (λ m. get m i)
        (after_leases (λ t. t.prepared) s (λ a t. refl) (λ a t. refl) (λ a t. refl) (λ a t. refl)
            (λ a t. refl) (λ a t. refl)
          ∙ (fold_field (λ (e : ℕ × ℤ). e) insert_lease (λ e. Unit {0}) (λ t. t.prepared)
                (λ e h t. refl) (iter s.prepared) (all_rows (iter s.prepared))
                (record (nodes_in s) { next_object_id = s.next_object_id })
              ∙ (ap (insert_list (iter s.prepared))
                  (before_leases (λ t. t.prepared) s (λ a t. refl) (λ a t. refl)))))
      ∙ get-refill s.prepared i

  restore-stream_set_objects :
      (s : MetadataState)
      → RowsKeyed s
      → (i : ℕ) → get (restore s).stream_set_objects i ≡ get s.stream_set_objects i
  restore-stream_set_objects s k i =
      ap (λ m. get m i)
        (after_set_objects (λ t. t.stream_set_objects) s (λ a t. refl) (λ a t. refl) (λ a t. refl)
            (λ a t. refl) (λ a t. refl)
          ∙ (fold_field (λ (e : ℕ × StreamSetObjectRow). e.1) insert_set_row
                (λ e. e.1.object.object_id ≡ e.0) (λ t. t.stream_set_objects)
                (λ e h t. ap (λ i. insert t.stream_set_objects i e.1) h) (iter s.stream_set_objects)
                k.set_objects (leases_in s)
              ∙ (ap (insert_list (iter s.stream_set_objects)) (
                  before_set_objects (λ t. t.stream_set_objects) s (λ a t. refl) (λ a t. refl)
                    (λ a t. refl) (λ a t. refl)))))
      ∙ get-refill s.stream_set_objects i

  restore-stream_objects :
      (s : MetadataState)
      → RowsKeyed s
      → (i : ObjectKey) → get (restore s).stream_objects i ≡ get s.stream_objects i
  restore-stream_objects s k i =
      ap (λ m. get m i)
        (after_objects (λ t. t.stream_objects) s (λ a t. refl) (λ a t. refl) (λ a t. refl)
            (λ a t. refl)
          ∙ (fold_field view_object insert_object_row (λ e. IsKeyed e) (λ t. t.stream_objects)
                (λ e h t. object_step e h t) (iter s.stream_objects) k.objects (set_objects_in s)
              ∙ (ap (insert_list (iter s.stream_objects)) (
                  before_objects (λ t. t.stream_objects) s (λ a t. refl) (λ a t. refl) (λ a t. refl)
                    (λ a t. refl) (λ a t. refl)))))
      ∙ get-refill s.stream_objects i

  restore-mark_destroyed :
      (s : MetadataState)
      → RowsKeyed s
      → (i : ℕ) → get (restore s).mark_destroyed i ≡ get s.mark_destroyed i
  restore-mark_destroyed s k i =
      ap (λ m. get m i)
        (after_destroyed (λ t. t.mark_destroyed) s (λ a t. refl) (λ a t. refl) (λ a t. refl)
          ∙ (fold_field (λ (e : ℕ × (ℕ × CompactOperations)). e) insert_destroyed (λ e. Unit {0})
                (λ t. t.mark_destroyed) (λ e h t. refl) (iter s.mark_destroyed)
                (all_rows (iter s.mark_destroyed)) (objects_in s)
              ∙ (ap (insert_list (iter s.mark_destroyed)) (
                  before_destroyed (λ t. t.mark_destroyed) s (λ a t. refl) (λ a t. refl)
                    (λ a t. refl) (λ a t. refl) (λ a t. refl) (λ a t. refl)))))
      ∙ get-refill s.mark_destroyed i

  restore-kv : (s : MetadataState) → RowsKeyed s → (i : Bytes) → get (restore s).kv i ≡ get s.kv i
  restore-kv s k i =
      ap (λ m. get m i)
        (after_kv (λ t. t.kv) s (λ a t. refl)
          ∙ (fold_field (λ (e : Bytes × Bytes). e) insert_entry (λ e. Unit {0}) (λ t. t.kv)
                (λ e h t. refl) (iter s.kv) (all_rows (iter s.kv))
                (record (destroyed_in s) { next_destroyed_seq = s.next_destroyed_seq })
              ∙ (ap (insert_list (iter s.kv)) (
                  before_kv (λ t. t.kv) s (λ a t. refl) (λ a t. refl) (λ a t. refl) (λ a t. refl)
                    (λ a t. refl) (λ a t. refl) (λ a t. refl)))))
      ∙ get-refill s.kv i

  restore-pending_transfers :
      (s : MetadataState)
      → RowsKeyed s
      → (i : ℕ) → get (restore s).pending_transfers i ≡ get s.pending_transfers i
  restore-pending_transfers s k i =
      ap (λ m. get m i)
        (fold_field (λ (e : ℕ × PendingTransfer). e) insert_transfer (λ e. Unit {0})
            (λ t. t.pending_transfers) (λ e h t. refl) (iter s.pending_transfers)
            (all_rows (iter s.pending_transfers)) (kv_in s)
          ∙ (ap (insert_list (iter s.pending_transfers)) (
              before_transfers (λ t. t.pending_transfers) s (λ a t. refl) (λ a t. refl)
                (λ a t. refl) (λ a t. refl) (λ a t. refl) (λ a t. refl) (λ a t. refl) (λ a t. refl)
                (λ a t. refl))))
      ∙ get-refill s.pending_transfers i

  restore-next_stream_id : (s : MetadataState) → (restore s).next_stream_id ≡ s.next_stream_id
  restore-next_stream_id s =
      after_streams (λ t. t.next_stream_id) s (λ a t. refl) (λ a t. refl) (λ a t. refl)
        (λ a t. refl) (λ a t. refl) (λ a t. refl) (λ a t. refl) (λ a t. refl) (λ a t. refl)
      ∙ before_nodes (λ t. t.next_stream_id) s (λ a t. refl)

  restore-next_object_id : (s : MetadataState) → (restore s).next_object_id ≡ s.next_object_id
  restore-next_object_id s =
      after_leases (λ t. t.next_object_id) s (λ a t. refl) (λ a t. refl) (λ a t. refl) (λ a t. refl)
        (λ a t. refl) (λ a t. refl)
      ∙ fold_frame (λ (e : ℕ × ℤ). e) insert_lease (λ t. t.next_object_id) (λ a t. refl)
          (iter s.prepared) (record (nodes_in s) { next_object_id = s.next_object_id })

  restore-next_destroyed_seq :
      (s : MetadataState) → (restore s).next_destroyed_seq ≡ s.next_destroyed_seq
  restore-next_destroyed_seq s =
      after_kv (λ t. t.next_destroyed_seq) s (λ a t. refl)
      ∙ fold_frame (λ (e : Bytes × Bytes). e) insert_entry (λ t. t.next_destroyed_seq) (λ a t. refl)
          (iter s.kv) (record (destroyed_in s) { next_destroyed_seq = s.next_destroyed_seq })

  -- The states answer alike.
  pub record SameTables (s t : MetadataState) : Type 0 where
    pub next_stream_id : t.next_stream_id ≡ s.next_stream_id
    pub next_object_id : t.next_object_id ≡ s.next_object_id
    pub next_destroyed_seq : t.next_destroyed_seq ≡ s.next_destroyed_seq
    pub streams : (i : ℕ) → get t.streams i ≡ get s.streams i
    pub nodes : (i : ℤ) → get t.nodes i ≡ get s.nodes i
    pub prepared : (i : ℕ) → get t.prepared i ≡ get s.prepared i
    pub set_objects : (i : ℕ) → get t.stream_set_objects i ≡ get s.stream_set_objects i
    pub objects : (i : ObjectKey) → get t.stream_objects i ≡ get s.stream_objects i
    pub destroyed : (i : ℕ) → get t.mark_destroyed i ≡ get s.mark_destroyed i
    pub kv : (i : Bytes) → get t.kv i ≡ get s.kv i
    pub transfers : (i : ℕ) → get t.pending_transfers i ≡ get s.pending_transfers i

  -- A snapshot of a state whose numbers and texts are in the ranges of their types and whose tables have fewer than 2^64
  -- rows, each row under its own id and each stream object with one range, is decoded, the next ids are the same, and the tables of streams, nodes,
  -- leases, objects, destroyed objects, keys and transfers of the decoded state answer every lookup as those of the state.
  pub decode-encode :
      (s : MetadataState)
      → StateFits s
      → RowsKeyed s
      → (t : MetadataState) × (decode (encode s) ≡ ok t) × SameTables s t
  decode-encode s f k = (
    restore s,
    decode-encode_rows s f,
    record {
      next_stream_id = restore-next_stream_id s;
      next_object_id = restore-next_object_id s;
      next_destroyed_seq = restore-next_destroyed_seq s;
      streams = restore-streams s k;
      nodes = restore-nodes s k;
      prepared = restore-prepared s k;
      set_objects = restore-stream_set_objects s k;
      objects = restore-stream_objects s k;
      destroyed = restore-mark_destroyed s k;
      kv = restore-kv s k;
      transfers = restore-pending_transfers s k;
    },
  )

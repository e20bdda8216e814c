-- ===== src/Metadata/Snapshot/Frames.antt =====
-- What the loops of the decoder leave as it is: the fields before and behind the loop that fills them.
use streamstack.Prelude.{ℕ, ℤ, ◌≡◌, ◌∙◌}
use streamstack.OrdMap.{OrdMap}
use streamstack.OrdMap.Keys.{u64_key, i32_key, pair_key, triple_key, text_key}
use streamstack.Metadata.Types.{
  Bytes, StreamRow, NodeRow, PendingTransfer, StreamSetObjectRow, CompactOperations,
}
use streamstack.Metadata.State.{MetadataState, empty_state}
use streamstack.Metadata.Snapshot.Restored.{
  view_object, restore, streams_in, nodes_in, leases_in, set_objects_in, objects_in, destroyed_in,
  kv_in,
}
use streamstack.Metadata.Snapshot.Body.{
  insert_stream, insert_node, insert_lease, insert_set_row, insert_object_row, insert_destroyed,
  insert_entry, insert_transfer,
}
use streamstack.Metadata.Snapshot.Refill.{fold_frame}

module _ ⦃im : OrdMap⦄ where
  open im use {Map, get, insert, iter, new}

  -- A loop leaves a field as it is.
  abbrev pub Skips :
      {A X : Type 0} → (MetadataState → X) → (A → MetadataState → MetadataState) → Type 0
  Skips {A} field ins = (a : A) (s : MetadataState) → field (ins a s) ≡ field s

  -- A field that the loops from the last one back leave as it is, where the counters are not part of it.
  module _ {X : Type 0} (field : MetadataState → X) (s : MetadataState) where
    pub after_kv : Skips field insert_transfer → field (restore s) ≡ field (kv_in s)
    after_kv h0 =
        fold_frame (λ (e : ℕ × PendingTransfer). e) insert_transfer field h0
          (iter s.pending_transfers) (kv_in s)

    pub after_destroyed :
        Skips field insert_transfer
        → Skips field insert_entry
        → ((n : ℕ) (t : MetadataState) → field (record t { next_destroyed_seq = n }) ≡ field t)
        → field (restore s) ≡ field (destroyed_in s)
    after_destroyed h0 h1 c =
        after_kv h0
        ∙ (fold_frame (λ (e : Bytes × Bytes). e) insert_entry field h1 (iter s.kv)
              (record (destroyed_in s) { next_destroyed_seq = s.next_destroyed_seq })
            ∙ c s.next_destroyed_seq (destroyed_in s))

    pub after_objects :
        Skips field insert_transfer
        → Skips field insert_entry
        → ((n : ℕ) (t : MetadataState) → field (record t { next_destroyed_seq = n }) ≡ field t)
        → Skips field insert_destroyed
        → field (restore s) ≡ field (objects_in s)
    after_objects h0 h1 c h2 =
        after_destroyed h0 h1 c
        ∙ fold_frame (λ (e : ℕ × (ℕ × CompactOperations)). e) insert_destroyed field h2
            (iter s.mark_destroyed) (objects_in s)

    pub after_set_objects :
        Skips field insert_transfer
        → Skips field insert_entry
        → ((n : ℕ) (t : MetadataState) → field (record t { next_destroyed_seq = n }) ≡ field t)
        → Skips field insert_destroyed
        → Skips field insert_object_row
        → field (restore s) ≡ field (set_objects_in s)
    after_set_objects h0 h1 c h2 h3 =
        after_objects h0 h1 c h2
        ∙ fold_frame view_object insert_object_row field h3 (iter s.stream_objects)
            (set_objects_in s)

    pub after_leases :
        Skips field insert_transfer
        → Skips field insert_entry
        → ((n : ℕ) (t : MetadataState) → field (record t { next_destroyed_seq = n }) ≡ field t)
        → Skips field insert_destroyed
        → Skips field insert_object_row
        → Skips field insert_set_row
        → field (restore s) ≡ field (leases_in s)
    after_leases h0 h1 c h2 h3 h4 =
        after_set_objects h0 h1 c h2 h3
        ∙ fold_frame (λ (e : ℕ × StreamSetObjectRow). e.1) insert_set_row field h4
            (iter s.stream_set_objects) (leases_in s)

    pub after_nodes :
        Skips field insert_transfer
        → Skips field insert_entry
        → ((n : ℕ) (t : MetadataState) → field (record t { next_destroyed_seq = n }) ≡ field t)
        → Skips field insert_destroyed
        → Skips field insert_object_row
        → Skips field insert_set_row
        → Skips field insert_lease
        → ((n : ℕ) (t : MetadataState) → field (record t { next_object_id = n }) ≡ field t)
        → field (restore s) ≡ field (nodes_in s)
    after_nodes h0 h1 c h2 h3 h4 h5 o =
        after_leases h0 h1 c h2 h3 h4
        ∙ (fold_frame (λ (e : ℕ × ℤ). e) insert_lease field h5 (iter s.prepared)
              (record (nodes_in s) { next_object_id = s.next_object_id })
            ∙ o s.next_object_id (nodes_in s))

    pub after_streams :
        Skips field insert_transfer
        → Skips field insert_entry
        → ((n : ℕ) (t : MetadataState) → field (record t { next_destroyed_seq = n }) ≡ field t)
        → Skips field insert_destroyed
        → Skips field insert_object_row
        → Skips field insert_set_row
        → Skips field insert_lease
        → ((n : ℕ) (t : MetadataState) → field (record t { next_object_id = n }) ≡ field t)
        → Skips field insert_node
        → field (restore s) ≡ field (streams_in s)
    after_streams h0 h1 c h2 h3 h4 h5 o h6 =
        after_nodes h0 h1 c h2 h3 h4 h5 o
        ∙ fold_frame (λ (e : ℤ × NodeRow). e.1) insert_node field h6 (iter s.nodes) (streams_in s)

    pub before_nodes :
        Skips field insert_stream
        → field (streams_in s) ≡ field (record empty_state { next_stream_id = s.next_stream_id })
    before_nodes h7 =
        fold_frame (λ (e : ℕ × StreamRow). e.1) insert_stream field h7 (iter s.streams)
          (record empty_state { next_stream_id = s.next_stream_id })

    pub before_leases :
        Skips field insert_stream
        → Skips field insert_node
        → field (nodes_in s) ≡ field (record empty_state { next_stream_id = s.next_stream_id })
    before_leases h7 h6 =
        fold_frame (λ (e : ℤ × NodeRow). e.1) insert_node field h6 (iter s.nodes) (streams_in s)
        ∙ before_nodes h7

    pub before_set_objects :
        Skips field insert_stream
        → Skips field insert_node
        → Skips field insert_lease
        → ((n : ℕ) (t : MetadataState) → field (record t { next_object_id = n }) ≡ field t)
        → field (leases_in s) ≡ field (record empty_state { next_stream_id = s.next_stream_id })
    before_set_objects h7 h6 h5 o =
        fold_frame (λ (e : ℕ × ℤ). e) insert_lease field h5 (iter s.prepared)
          (record (nodes_in s) { next_object_id = s.next_object_id })
        ∙ o s.next_object_id (nodes_in s)
        ∙ before_leases h7 h6

    pub before_objects :
        Skips field insert_stream
        → Skips field insert_node
        → Skips field insert_lease
        → ((n : ℕ) (t : MetadataState) → field (record t { next_object_id = n }) ≡ field t)
        → Skips field insert_set_row
        → field (set_objects_in s)
          ≡ field (record empty_state { next_stream_id = s.next_stream_id })
    before_objects h7 h6 h5 o h4 =
        fold_frame (λ (e : ℕ × StreamSetObjectRow). e.1) insert_set_row field h4
          (iter s.stream_set_objects) (leases_in s)
        ∙ before_set_objects h7 h6 h5 o

    pub before_destroyed :
        Skips field insert_stream
        → Skips field insert_node
        → Skips field insert_lease
        → ((n : ℕ) (t : MetadataState) → field (record t { next_object_id = n }) ≡ field t)
        → Skips field insert_set_row
        → Skips field insert_object_row
        → field (objects_in s) ≡ field (record empty_state { next_stream_id = s.next_stream_id })
    before_destroyed h7 h6 h5 o h4 h3 =
        fold_frame view_object insert_object_row field h3 (iter s.stream_objects) (set_objects_in s)
        ∙ before_objects h7 h6 h5 o h4

    pub before_kv :
        Skips field insert_stream
        → Skips field insert_node
        → Skips field insert_lease
        → ((n : ℕ) (t : MetadataState) → field (record t { next_object_id = n }) ≡ field t)
        → Skips field insert_set_row
        → Skips field insert_object_row
        → Skips field insert_destroyed
        → field (destroyed_in s) ≡ field (record empty_state { next_stream_id = s.next_stream_id })
    before_kv h7 h6 h5 o h4 h3 h2 =
        fold_frame (λ (e : ℕ × (ℕ × CompactOperations)). e) insert_destroyed field h2
          (iter s.mark_destroyed) (objects_in s)
        ∙ before_destroyed h7 h6 h5 o h4 h3

    pub before_transfers :
        Skips field insert_stream
        → Skips field insert_node
        → Skips field insert_lease
        → ((n : ℕ) (t : MetadataState) → field (record t { next_object_id = n }) ≡ field t)
        → Skips field insert_set_row
        → Skips field insert_object_row
        → Skips field insert_destroyed
        → Skips field insert_entry
        → ((n : ℕ) (t : MetadataState) → field (record t { next_destroyed_seq = n }) ≡ field t)
        → field (kv_in s) ≡ field (record empty_state { next_stream_id = s.next_stream_id })
    before_transfers h7 h6 h5 o h4 h3 h2 h1 c =
        fold_frame (λ (e : Bytes × Bytes). e) insert_entry field h1 (iter s.kv)
          (record (destroyed_in s) { next_destroyed_seq = s.next_destroyed_seq })
        ∙ c s.next_destroyed_seq (destroyed_in s)
        ∙ before_kv h7 h6 h5 o h4 h3 h2

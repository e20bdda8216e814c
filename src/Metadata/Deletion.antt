-- ===== src/Metadata/Deletion.antt =====
-- Deletion of streams: `delete_stream` and `remove_placed_stream` of
-- picomq/pico-metadata/src/apply.rs.
use streamstack.Prelude.{ℕ, ℤ, eqb_ℤ, u64_max, not, none, some, List, [], ◌∷◌, ◌==◌, if◌then◌else◌}
use streamstack.OrdMap.{OrdMap, keep}
use streamstack.OrdMap.Keys.{u64_key, i32_key, pair_key, triple_key}
use streamstack.Metadata.Types.{
  StreamObjectRow, delete, MetadataResult, unit, ok, err, stream_not_closed, expired_epoch,
}
use streamstack.Metadata.State.{MetadataState, is_opened, Outcome, attempt}
use streamstack.Metadata.Nodes.{node_epoch_check}
use streamstack.Metadata.Destroyed.{mark_destroyed}

module _ ⦃im : OrdMap⦄ where
  open im use {Map, get, insert, remove, iter, range, range_to}

  unfoldable pub remove_keys :
      List ((ℤ × ℕ) × Unit {0}) → Map (ℤ × ℕ) (Unit {0}) → Map (ℤ × ℕ) (Unit {0})
  remove_keys [] m = m
  remove_keys ((k, _) ∷ keys) m = remove_keys keys (remove m k)

  unfoldable pub remove_placed_stream : ℕ → MetadataState → MetadataState
  remove_placed_stream stream_id s = record s {
    placed_by_node =
        remove_keys (keep (λ e. e.0.1 == stream_id) (iter s.placed_by_node)) s.placed_by_node;
  }

  -- The loop over the keys of the objects of a deleted stream.
  unfoldable pub drop_stream_objects :
      List ((ℕ × ℕ × ℕ) × StreamObjectRow) → MetadataState → MetadataState
  drop_stream_objects [] s = s
  drop_stream_objects ((k, _) ∷ keys) s = drop_stream_objects keys (
      mark_destroyed k.2 delete (record s {
        stream_objects = remove s.stream_objects k;
        stream_object_ids = remove s.stream_object_ids k.2;
      }))

  unfoldable pub delete_stream :
      ℤ → ℤ → ℕ → ℤ → MetadataState → Outcome MetadataState MetadataResult
  delete_stream node_id node_epoch stream_id epoch s =
      attempt (node_epoch_check s node_id node_epoch) s λ _. elim (get s.streams stream_id) [
        | none ↦ (ok unit, s)
        | some row ↦
            if is_opened row.state
            then (err (stream_not_closed stream_id), s)
            else if not (eqb_ℤ row.epoch epoch)
            then (err (expired_epoch stream_id epoch), s)
            else (let s1 = record s { streams = remove s.streams stream_id } in
                let s2 = remove_placed_stream stream_id s1 in
                let s3 = record s2 { pending_transfers = remove s2.pending_transfers stream_id } in
                let keys =
                  range s3.stream_objects (stream_id, 0, 0) (stream_id, u64_max, u64_max) in
                (ok unit, drop_stream_objects keys s3))
      ]

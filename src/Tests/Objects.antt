-- ===== src/Tests/Objects.antt =====
-- The theorems on commits, placement, leases and the key-value store at concrete states.
use streamstack.Prelude.{
  ℤ, pos, negsuc, ◌≡◌, refl, List, [], ◌∷◌, some, arith, eqb_ℤ, ltb_ℤ, add_i64, int_as_u64,
}
use streamstack.OrdMap.{keep}
use streamstack.OrdMap.Sorted.{sorted_lists}
use streamstack.OrdMap.Keys.{u64_key, i32_key, pair_key, triple_key, text_key}
use streamstack.Metadata.Types
use streamstack.Metadata.Types.{
  MetadataCommand, MetadataResult, CommitStreamSetObjectRequest, StreamRow, NodeRow, opened, closed,
  ok, err, redundant, node_epoch_mismatch, id,
}
use streamstack.Metadata.State.{MetadataState, empty_state, OnOk-ok}
use streamstack.Metadata.Apply.{apply, apply_inner, replay}
use streamstack.Metadata.Nodes.{register_node, node_epoch_check}
use streamstack.Metadata.Streams.{
  create_stream, open_stream, trim_stream, close_stream, require_stream, require_opened_stream,
}
use streamstack.Metadata.Placement.{place_stream, score, consider, find_winner, assign}
use streamstack.Metadata.Placement.Optimal.{IsBest, place_stream_optimal}
use streamstack.Metadata.Transfers.{transfer_stream, complete_transfer}
use streamstack.Metadata.Deletion.{remove_placed_stream}
use streamstack.Metadata.Leases.{lease, prepare_object, commit_prepared, expire_prepared_objects}
use streamstack.Metadata.Leases.Expiry.{
  LeasesIndexed, unexpired, expire_exact, empty_state-LeasesIndexed, prepare_object-LeasesIndexed,
}
use streamstack.Metadata.Commit.{
  commit_stream_set_object, advance_end_offset, redundant_commit_check, oldest_data, drop_compacted,
  advance_ranges, commit_object, commit_stream_objects,
}
use streamstack.Metadata.Commit.Retry.{commit_retry}
use streamstack.Metadata.Objects.{
  stream_object_committed, check_object_id_free, insert_ranges, insert_stream_set_object,
}
use streamstack.Metadata.Query.{starts_with, list_kv}
use streamstack.Metadata.Query.Prefix.{list_kv_exact}
use streamstack.Tests.Log.{request, first_state}

-- The log up to the commit.
abbrev prepared_log : List MetadataCommand
prepared_log =
    Types.register_node (pos 1) (pos 10) [] 4
    ∷ Types.create_stream (pos 1) (pos 10)
    ∷ Types.create_stream (pos 1) (pos 10)
    ∷ Types.open_stream (pos 1) (pos 10) 0 (pos 1)
    ∷ Types.prepare_object (pos 1) (pos 10) 3 (pos 1000) (pos 0)
    ∷ []

abbrev prepared_state : MetadataState
prepared_state = replay prepared_log empty_state

committed :
    commit_stream_set_object (pos 1) (pos 10) request (pos 50) prepared_state
    ≡ (ok Types.unit, first_state)
unfolding apply_inner apply replay register_node node_epoch_check create_stream require_stream
    open_stream require_opened_stream trim_stream close_stream score consider find_winner assign
    place_stream transfer_stream complete_transfer remove_placed_stream lease prepare_object
    commit_prepared advance_end_offset redundant_commit_check oldest_data drop_compacted
    advance_ranges commit_object commit_stream_objects commit_stream_set_object
    stream_object_committed check_object_id_free insert_ranges insert_stream_set_object eqb_ℤ ltb_ℤ
    add_i64
committed = refl

commit_retry_example :
    commit_stream_set_object (pos 1) (pos 10) request (pos 90) first_state
    ≡ (err redundant, first_state)
commit_retry_example =
    commit_retry (pos 1) (pos 10) request (pos 50) (pos 90) prepared_state first_state Types.unit
      (λ h. ground (arith, h)) committed

abbrev row_unplaced : StreamRow
row_unplaced = record {
  stream_id = 1;
  epoch = negsuc 0;
  start_offset = 0;
  end_offset = 0;
  state = closed;
  node_id = negsuc 0;
}

unplaced : sorted_lists.get first_state.streams 1 ≡ some row_unplaced
unfolding apply_inner apply replay register_node node_epoch_check create_stream require_stream
    open_stream require_opened_stream trim_stream close_stream score consider find_winner assign
    place_stream transfer_stream complete_transfer remove_placed_stream lease prepare_object
    commit_prepared advance_end_offset redundant_commit_check oldest_data drop_compacted
    advance_ranges commit_object commit_stream_objects commit_stream_set_object
    stream_object_committed check_object_id_free insert_ranges insert_stream_set_object eqb_ℤ ltb_ℤ
    add_i64
unplaced = refl

placed : place_stream 1 first_state ≡ (ok (id 1), assign first_state 1 row_unplaced (pos 1))
unfolding apply_inner apply replay register_node node_epoch_check create_stream require_stream
    open_stream require_opened_stream trim_stream close_stream score consider find_winner assign
    place_stream transfer_stream complete_transfer remove_placed_stream lease prepare_object
    commit_prepared advance_end_offset redundant_commit_check oldest_data drop_compacted
    advance_ranges commit_object commit_stream_objects commit_stream_set_object
    stream_object_committed check_object_id_free insert_ranges insert_stream_set_object eqb_ℤ ltb_ℤ
    add_i64
placed = refl

place_stream_optimal_example :
    (b : ℤ) × (node : NodeRow) × IsBest first_state b node
    × (assign first_state 1 row_unplaced (pos 1) ≡ assign first_state 1 row_unplaced b)
    × (id 1 ≡ id (int_as_u64 b))
place_stream_optimal_example =
    place_stream_optimal 1 first_state (assign first_state 1 row_unplaced (pos 1)) row_unplaced
      (id 1) unplaced refl placed

-- Three ids are reserved on node 1.
abbrev node_state : MetadataState
node_state = record empty_state {
  nodes =
      sorted_lists.insert sorted_lists.new (pos 1)
        (record { node_id = pos 1; epoch = pos 10; http_address = []; slots = 4 });
}

node_state-LeasesIndexed : LeasesIndexed node_state
node_state-LeasesIndexed = record {
  due = empty_state-LeasesIndexed.due;
  unused = empty_state-LeasesIndexed.unused;
  word = empty_state-LeasesIndexed.word;
}

abbrev leased_state : MetadataState
leased_state = (prepare_object (pos 1) (pos 10) 3 (pos 1000) (pos 0) node_state).1

leased : prepare_object (pos 1) (pos 10) 3 (pos 1000) (pos 0) node_state ≡ (ok (id 0), leased_state)
unfolding apply_inner apply replay register_node node_epoch_check create_stream require_stream
    open_stream require_opened_stream trim_stream close_stream score consider find_winner assign
    place_stream transfer_stream complete_transfer remove_placed_stream lease prepare_object
    commit_prepared advance_end_offset redundant_commit_check oldest_data drop_compacted
    advance_ranges commit_object commit_stream_objects commit_stream_set_object
    stream_object_committed check_object_id_free insert_ranges insert_stream_set_object eqb_ℤ ltb_ℤ
    add_i64
leased = refl

leased_state-LeasesIndexed : LeasesIndexed leased_state
leased_state-LeasesIndexed = OnOk-ok (id 0) leased_state (
    rw leased at (
      prepare_object-LeasesIndexed (pos 1) (pos 10) 3 (pos 1000) (pos 0) node_state (omega arith)
        node_state-LeasesIndexed))

expire_exact_example :
    sorted_lists.get (expire_prepared_objects (pos 1000) leased_state).1.prepared 2
    ≡ unexpired (pos 1000) (sorted_lists.get leased_state.prepared 2)
expire_exact_example = expire_exact (pos 1000) leased_state 2 leased_state-LeasesIndexed

abbrev kv_state : MetadataState
kv_state = record empty_state {
  kv =
      sorted_lists.insert (sorted_lists.insert sorted_lists.new (97 ∷ 98 ∷ []) (1 ∷ [])) (98 ∷ [])
        (2 ∷ []);
}

list_kv_exact_example :
    list_kv kv_state (97 ∷ [])
    ≡ keep (λ e. starts_with (97 ∷ []) e.0) (sorted_lists.iter kv_state.kv)
list_kv_exact_example = list_kv_exact kv_state (97 ∷ [])

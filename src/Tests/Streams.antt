-- ===== src/Tests/Streams.antt =====
-- The theorems on streams, epochs and indexes at the states of the log.
use streamstack.Prelude.{
  ℕ, ◌≤◌, pos, ◌≡◌, ◌≢◌, refl, true, some, [], ◌∷◌, arith, eqb_ℤ, ltb_ℤ, add_i64, ◌≤ℤ◌,
}
use streamstack.OrdMap.Sorted.{sorted_lists}
use streamstack.OrdMap.Keys.{u64_key, i32_key, pair_key, triple_key, text_key}
use streamstack.Metadata.Types
use streamstack.Metadata.Types.{
  MetadataCommand, MetadataResult, CommitStreamSetObjectRequest, StreamRow, NodeRow, opened, closed,
  ok, err, redundant, node_epoch_mismatch, id, unit,
}
use streamstack.Metadata.State.{empty_state, is_opened}
use streamstack.Metadata.Apply.{apply, apply_inner, replay}
use streamstack.Metadata.Nodes.{register_node, node_epoch_check}
use streamstack.Metadata.Streams.{
  create_stream, open_stream, trim_stream, close_stream, require_stream, require_opened_stream,
}
use streamstack.Metadata.Placement.{place_stream, score, consider, find_winner, assign}
use streamstack.Metadata.Transfers.{transfer_stream, complete_transfer}
use streamstack.Metadata.Deletion.{remove_placed_stream}
use streamstack.Metadata.Leases.{lease, prepare_object, commit_prepared}
use streamstack.Metadata.Commit.{
  commit_stream_set_object, advance_end_offset, redundant_commit_check, oldest_data, drop_compacted,
  advance_ranges, commit_object, commit_stream_objects,
}
use streamstack.Metadata.Objects.{
  stream_object_committed, check_object_id_free, insert_ranges, insert_stream_set_object,
}
use streamstack.Metadata.Indexed.{IsIndexed}
use streamstack.Metadata.Indexed.Replay.{apply-IsIndexed, reachable-IsIndexed}
use streamstack.Metadata.Fencing.{
  failed, stale_epoch_fenced, zombie_fenced, one_owner_per_epoch, offsets_monotone,
}
use streamstack.Metadata.Fencing.Nodes.{node_fenced, replaced_node_fenced}
use streamstack.Metadata.Commit.Epochs.{request_with_epochs, commit_ignores_epochs}
use streamstack.Metadata.Streams.{to_stream_metadata}
use streamstack.Metadata.Query.{get_opening_streams}
use streamstack.Metadata.Query.Opening.{
  Listed, get_opening_streams_complete, get_opening_streams_sound,
}
use streamstack.Tests.Log.{
  request, first_log, first_state, second_log, second_state, third_log, row_opened, row_moved,
  row_trimmed, first_row, second_row, third_row, zero_is_given, first_log-Admissible,
  second_log-Admissible, third_log-Admissible, first_state-IsIndexed, second_state-IsIndexed,
  second_log-InOrder, third_log-InOrder,
}

apply-IsIndexed_example :
    IsIndexed (apply (Types.close_stream (pos 1) (pos 10) 0 (pos 1)) first_state).1
apply-IsIndexed_example =
    apply-IsIndexed (Types.close_stream (pos 1) (pos 10) 0 (pos 1)) first_state tt
      first_state-IsIndexed

reachable-IsIndexed_example : IsIndexed (replay first_log empty_state)
reachable-IsIndexed_example = reachable-IsIndexed first_log first_log-Admissible

offsets_monotone_example :
    (row : StreamRow) × (sorted_lists.get first_state.streams 0 ≡ some row)
    × (row.start_offset ≤ 2)
    × (row.end_offset ≤ 5)
    × (row.epoch ≤ℤ pos 2)
offsets_monotone_example =
    offsets_monotone second_log first_state 0 row_moved first_state-IsIndexed second_log-Admissible
      second_log-InOrder zero_is_given second_row

-- A writer under epoch 1 comes back after the move.
abbrev zombie : MetadataCommand
zombie = Types.trim_stream (pos 1) (pos 10) 0 (pos 1) 5

zombie_fenced_example :
    (failed (apply zombie (replay third_log second_state)) ≡ true)
    × ((apply zombie (replay third_log second_state)).1 ≡ replay third_log second_state)
zombie_fenced_example =
    zombie_fenced third_log second_state zombie 0 (pos 1) row_moved row_trimmed
      second_state-IsIndexed third_log-Admissible third_log-InOrder second_row third_row refl
      (omega arith)

one_owner_per_epoch_example :
    (is_opened row_moved.state ≡ true) × (row_trimmed.node_id ≡ row_moved.node_id)
one_owner_per_epoch_example =
    one_owner_per_epoch third_log second_state 0 row_moved row_trimmed second_state-IsIndexed
      third_log-Admissible third_log-InOrder second_row third_row refl refl

stale_epoch_fenced_example :
    (failed (apply zombie second_state) ≡ true) × ((apply zombie second_state).1 ≡ second_state)
stale_epoch_fenced_example =
    stale_epoch_fenced zombie second_state 0 (pos 1) row_moved refl second_row (omega arith)

abbrev node_row : NodeRow
node_row = record { node_id = pos 1; epoch = pos 10; http_address = []; slots = 4 }

-- Node 1 is registered under epoch 10.
first_node : sorted_lists.get first_state.nodes (pos 1) ≡ some node_row
unfolding apply_inner apply replay register_node node_epoch_check create_stream require_stream
    open_stream require_opened_stream trim_stream close_stream score consider find_winner assign
    place_stream transfer_stream complete_transfer remove_placed_stream lease prepare_object
    commit_prepared advance_end_offset redundant_commit_check oldest_data drop_compacted
    advance_ranges commit_object commit_stream_objects commit_stream_set_object
    stream_object_committed check_object_id_free insert_ranges insert_stream_set_object eqb_ℤ ltb_ℤ
    add_i64
first_node = refl

node_is_newer :
    (node : NodeRow) → sorted_lists.get first_state.nodes (pos 1) ≡ some node → node.epoch ≢ pos 9
node_is_newer node h = ground (arith, h, first_node)

node_fenced_example :
    apply (Types.create_stream (pos 1) (pos 9)) first_state
    ≡ (err (node_epoch_mismatch (pos 1)), first_state)
node_fenced_example =
    node_fenced (Types.create_stream (pos 1) (pos 9)) first_state (pos 1) (pos 9) refl node_is_newer

replaced_node_fenced_example :
    apply (Types.register_node (pos 1) (pos 9) [] 4) (replay second_log first_state)
    ≡ (err (node_epoch_mismatch (pos 1)), replay second_log first_state)
replaced_node_fenced_example =
    replaced_node_fenced second_log first_state (Types.register_node (pos 1) (pos 9) [] 4) (pos 1)
      (pos 9) node_row first_state-IsIndexed second_log-Admissible second_log-InOrder first_node
      refl (omega arith)

-- Node 1 still writes to stream 0 under epoch 1, after the stream has moved to node 2 under epoch 2.
abbrev late_request : CommitStreamSetObjectRequest
late_request = record request {
  object_id = 1;
  stream_ranges =
      record { stream_id = 0; epoch = 1; start_offset = 5; end_offset = 7; size = 40 } ∷ [];
}

late_commit_is_accepted :
    (apply (Types.commit_stream_set_object (pos 1) (pos 10) late_request (pos 60)) second_state).0
    ≡ ok unit
unfolding apply_inner apply replay register_node node_epoch_check create_stream require_stream
    open_stream require_opened_stream trim_stream close_stream score consider find_winner assign
    place_stream transfer_stream complete_transfer remove_placed_stream lease prepare_object
    commit_prepared advance_end_offset redundant_commit_check oldest_data drop_compacted
    advance_ranges commit_object commit_stream_objects commit_stream_set_object
    stream_object_committed check_object_id_free insert_ranges insert_stream_set_object eqb_ℤ ltb_ℤ
    add_i64
late_commit_is_accepted = refl

commit_ignores_epochs_example :
    commit_stream_set_object
      (pos 1)
      (pos 10)
      (request_with_epochs (λ r. 2) late_request)
      (pos 60)
      second_state
    ≡ commit_stream_set_object (pos 1) (pos 10) late_request (pos 60) second_state
commit_ignores_epochs_example =
    commit_ignores_epochs (λ r. 2) (pos 1) (pos 10) late_request (pos 60) second_state

get_opening_streams_complete_example :
    Listed (to_stream_metadata row_opened) (get_opening_streams first_state (pos 1))
get_opening_streams_complete_example =
    get_opening_streams_complete first_state (pos 1) 0 row_opened first_state-IsIndexed
      (omega arith) first_row refl refl

stream_is_Listed : Listed (to_stream_metadata row_opened) (get_opening_streams first_state (pos 1))
stream_is_Listed =
    get_opening_streams_complete first_state (pos 1) 0 row_opened first_state-IsIndexed
      (omega arith) first_row refl refl

get_opening_streams_sound_example :
    (i : ℕ) × (row : StreamRow) × (sorted_lists.get first_state.streams i ≡ some row)
    × (is_opened row.state ≡ true)
    × (row.node_id ≡ pos 1)
    × (to_stream_metadata row ≡ to_stream_metadata row_opened)
get_opening_streams_sound_example =
    get_opening_streams_sound first_state (pos 1) (to_stream_metadata row_opened)
      first_state-IsIndexed stream_is_Listed

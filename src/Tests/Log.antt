-- ===== src/Tests/Log.antt =====
-- A log of commands on maps that are sorted lists: the states it leads to, and what they satisfy.
use streamstack.Prelude.{◌<◌, pos, ◌≡◌, refl, List, [], ◌∷◌, some, arith, eqb_ℤ, ltb_ℤ, add_i64}
use streamstack.OrdMap.Sorted.{sorted_lists}
use streamstack.OrdMap.Keys.{u64_key, i32_key, pair_key, triple_key, text_key}
use streamstack.Metadata.Types
use streamstack.Metadata.Types.{
  MetadataCommand, MetadataResult, CommitStreamSetObjectRequest, StreamRow, NodeRow, opened, closed,
  ok, err, redundant, node_epoch_mismatch, id,
}
use streamstack.Metadata.State.{MetadataState, empty_state}
use streamstack.Metadata.Apply.{apply, apply_inner, replay}
use streamstack.Metadata.Nodes.{register_node, node_epoch_check}
use streamstack.Metadata.Streams.{
  create_stream, open_stream, trim_stream, close_stream, require_stream, require_opened_stream,
}
use streamstack.Metadata.Placement.{place_stream, score, consider, find_winner, assign}
use streamstack.Metadata.Transfers.{transfer_stream, complete_transfer}
use streamstack.Metadata.Deletion.{remove_placed_stream}
use streamstack.Metadata.Leases.{lease, prepare_object, commit_prepared}
use streamstack.Metadata.Commit.{
  commit_stream_set_object, advance_end_offset, redundant_commit_check, oldest_data, drop_compacted,
  advance_ranges, commit_object, commit_stream_objects,
}
use streamstack.Metadata.Objects.{
  stream_object_committed, check_object_id_free, insert_ranges, insert_stream_set_object,
}
use streamstack.Metadata.Indexed.{IsIndexed}
use streamstack.Metadata.Indexed.Replay.{AllAdmissible, replay-IsIndexed, reachable-IsIndexed}
use streamstack.Metadata.Evolution.Replay.{AllInOrder}

-- Streams 0 and 1 are created and stream 0 is opened on node 1 under epoch 1, which commits the records 0 to 5 of it.
abbrev pub request : CommitStreamSetObjectRequest
request = record {
  object_id = 0;
  object_size = 100;
  attributes = 0;
  stream_ranges =
      record { stream_id = 0; epoch = 1; start_offset = 0; end_offset = 5; size = 100 } ∷ [];
  stream_objects = [];
  compacted_object_ids = [];
}

abbrev pub first_log : List MetadataCommand
first_log =
    Types.register_node (pos 1) (pos 10) [] 4
    ∷ Types.create_stream (pos 1) (pos 10)
    ∷ Types.create_stream (pos 1) (pos 10)
    ∷ Types.open_stream (pos 1) (pos 10) 0 (pos 1)
    ∷ Types.prepare_object (pos 1) (pos 10) 3 (pos 1000) (pos 0)
    ∷ Types.commit_stream_set_object (pos 1) (pos 10) request (pos 50)
    ∷ []

abbrev pub first_state : MetadataState
first_state = replay first_log empty_state

-- Node 2 registers and takes the stream over.
abbrev pub second_log : List MetadataCommand
second_log =
    Types.register_node (pos 2) (pos 20) [] 4
    ∷ Types.trim_stream (pos 1) (pos 10) 0 (pos 1) 2
    ∷ Types.transfer_stream 0 (pos 1) (pos 2)
    ∷ Types.close_stream (pos 1) (pos 10) 0 (pos 1)
    ∷ Types.complete_transfer 0 (pos 1)
    ∷ Types.open_stream (pos 2) (pos 20) 0 (pos 2)
    ∷ []

abbrev pub second_state : MetadataState
second_state = replay second_log first_state

abbrev pub third_log : List MetadataCommand
third_log =
    Types.trim_stream (pos 2) (pos 20) 0 (pos 2) 4
    ∷ Types.create_stream (pos 2) (pos 20)
    ∷ Types.place_stream 2
    ∷ []

abbrev pub row_opened : StreamRow
row_opened = record {
  stream_id = 0;
  epoch = pos 1;
  start_offset = 0;
  end_offset = 5;
  state = opened;
  node_id = pos 1;
}

abbrev pub row_moved : StreamRow
row_moved = record {
  stream_id = 0;
  epoch = pos 2;
  start_offset = 2;
  end_offset = 5;
  state = opened;
  node_id = pos 2;
}

abbrev pub row_trimmed : StreamRow
row_trimmed = record {
  stream_id = 0;
  epoch = pos 2;
  start_offset = 4;
  end_offset = 5;
  state = opened;
  node_id = pos 2;
}

pub first_row : sorted_lists.get first_state.streams 0 ≡ some row_opened
unfolding apply_inner apply replay register_node node_epoch_check create_stream require_stream
    open_stream require_opened_stream trim_stream close_stream score consider find_winner assign
    place_stream transfer_stream complete_transfer remove_placed_stream lease prepare_object
    commit_prepared advance_end_offset redundant_commit_check oldest_data drop_compacted
    advance_ranges commit_object commit_stream_objects commit_stream_set_object
    stream_object_committed check_object_id_free insert_ranges insert_stream_set_object eqb_ℤ ltb_ℤ
    add_i64
first_row = refl

pub second_row : sorted_lists.get second_state.streams 0 ≡ some row_moved
unfolding apply_inner apply replay register_node node_epoch_check create_stream require_stream
    open_stream require_opened_stream trim_stream close_stream score consider find_winner assign
    place_stream transfer_stream complete_transfer remove_placed_stream lease prepare_object
    commit_prepared advance_end_offset redundant_commit_check oldest_data drop_compacted
    advance_ranges commit_object commit_stream_objects commit_stream_set_object
    stream_object_committed check_object_id_free insert_ranges insert_stream_set_object eqb_ℤ ltb_ℤ
    add_i64
second_row = refl

pub third_row : sorted_lists.get (replay third_log second_state).streams 0 ≡ some row_trimmed
unfolding apply_inner apply replay register_node node_epoch_check create_stream require_stream
    open_stream require_opened_stream trim_stream close_stream score consider find_winner assign
    place_stream transfer_stream complete_transfer remove_placed_stream lease prepare_object
    commit_prepared advance_end_offset redundant_commit_check oldest_data drop_compacted
    advance_ranges commit_object commit_stream_objects commit_stream_set_object
    stream_object_committed check_object_id_free insert_ranges insert_stream_set_object eqb_ℤ ltb_ℤ
    add_i64
third_row = refl

pub zero_is_given : 0 < first_state.next_stream_id
unfolding apply_inner apply replay register_node node_epoch_check create_stream require_stream
    open_stream require_opened_stream trim_stream close_stream score consider find_winner assign
    place_stream transfer_stream complete_transfer remove_placed_stream lease prepare_object
    commit_prepared advance_end_offset redundant_commit_check oldest_data drop_compacted
    advance_ranges commit_object commit_stream_objects commit_stream_set_object
    stream_object_committed check_object_id_free insert_ranges insert_stream_set_object eqb_ℤ ltb_ℤ
    add_i64
zero_is_given = omega arith

-- Nodes are not the sentinel, and there is room for ids.
pub first_log-Admissible : AllAdmissible first_log empty_state
unfolding apply_inner apply replay register_node node_epoch_check create_stream require_stream
    open_stream require_opened_stream trim_stream close_stream score consider find_winner assign
    place_stream transfer_stream complete_transfer remove_placed_stream lease prepare_object
    commit_prepared advance_end_offset redundant_commit_check oldest_data drop_compacted
    advance_ranges commit_object commit_stream_objects commit_stream_set_object
    stream_object_committed check_object_id_free insert_ranges insert_stream_set_object eqb_ℤ ltb_ℤ
    add_i64
first_log-Admissible = (λ h. ground (arith, h), (omega arith, (omega arith, (tt, (tt, (tt, tt))))))

pub second_log-Admissible : AllAdmissible second_log first_state
unfolding apply_inner apply replay register_node node_epoch_check create_stream require_stream
    open_stream require_opened_stream trim_stream close_stream score consider find_winner assign
    place_stream transfer_stream complete_transfer remove_placed_stream lease prepare_object
    commit_prepared advance_end_offset redundant_commit_check oldest_data drop_compacted
    advance_ranges commit_object commit_stream_objects commit_stream_set_object
    stream_object_committed check_object_id_free insert_ranges insert_stream_set_object eqb_ℤ ltb_ℤ
    add_i64
second_log-Admissible = (λ h. ground (arith, h), (tt, (tt, (tt, (tt, (tt, tt))))))

pub third_log-Admissible : AllAdmissible third_log second_state
unfolding apply_inner apply replay register_node node_epoch_check create_stream require_stream
    open_stream require_opened_stream trim_stream close_stream score consider find_winner assign
    place_stream transfer_stream complete_transfer remove_placed_stream lease prepare_object
    commit_prepared advance_end_offset redundant_commit_check oldest_data drop_compacted
    advance_ranges commit_object commit_stream_objects commit_stream_set_object
    stream_object_committed check_object_id_free insert_ranges insert_stream_set_object eqb_ℤ ltb_ℤ
    add_i64
third_log-Admissible = (tt, (omega arith, (tt, tt)))

pub first_state-IsIndexed : IsIndexed first_state
first_state-IsIndexed = reachable-IsIndexed first_log first_log-Admissible

pub second_state-IsIndexed : IsIndexed second_state
second_state-IsIndexed =
    replay-IsIndexed second_log first_state second_log-Admissible first_state-IsIndexed

pub second_log-InOrder : AllInOrder second_log
second_log-InOrder = (tt, (tt, (tt, (tt, (tt, (tt, tt))))))

pub third_log-InOrder : AllInOrder third_log
third_log-InOrder = (tt, (tt, (tt, tt)))

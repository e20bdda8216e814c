-- ===== src/Metadata/Placement.antt =====
-- Placement of new streams on nodes: `place_stream` of picomq/pico-metadata/src/apply.rs.
pub mod Optimal
use streamstack.Prelude.{
  ℕ, ◌*◌, ◌/◌, ◌%◌, ℤ, eqb_ℤ, ltb_ℤ, int_as_u64, add_u64, u64_mod, u64_max, not, ◌&&◌, ◌||◌, Option,
  none, some, List, [], ◌∷◌, length, ltb, ◌==◌, if◌then◌else◌,
}
use streamstack.OrdMap.{OrdMap}
use streamstack.OrdMap.Keys.{u64_key, i32_key, pair_key, triple_key}
use streamstack.Metadata.Types.{
  StreamRow, NodeRow, MetadataResult, id, ok, err, node_epoch_mismatch, unexpected,
}
use streamstack.Metadata.State.{MetadataState, is_opened, Outcome, attempt}
use streamstack.Metadata.Streams.{require_stream, no_node, no_epoch}

module _ ⦃im : OrdMap⦄ where
  open im use {Map, get, insert, remove, iter, range, range_to}

  -- The number of streams that are open on a node or placed there, a thousandfold, by slots.
  unfoldable pub score : MetadataState → ℤ → NodeRow → ℕ
  score s node_id node =
      let opening_count = length (range s.opening_by_node (node_id, 0) (node_id, u64_max)) in
      let placed_count = length (range s.placed_by_node (node_id, 0) (node_id, u64_max)) in
      add_u64 opening_count placed_count * 1000 % u64_mod / node.slots

  -- One round of the loop over the nodes.
  unfoldable pub consider : MetadataState → Option (ℤ × ℕ) → ℤ → NodeRow → Option (ℤ × ℕ)
  consider s winner node_id node =
      if ltb node.slots 1
      then winner
      else (let node_score = score s node_id node in
          elim winner [
            | none ↦ some (node_id, node_score)
            | some (best_id, best_score) ↦
                if ltb node_score best_score || (node_score == best_score && ltb_ℤ node_id best_id)
                then some (node_id, node_score)
                else some (best_id, best_score)
          ])

  unfoldable pub find_winner : MetadataState → Option (ℤ × ℕ) → List (ℤ × NodeRow) → Option (ℤ × ℕ)
  find_winner s winner [] = winner
  find_winner s winner ((node_id, node) ∷ nodes) =
      find_winner s (consider s winner node_id node) nodes

  unfoldable pub assign : MetadataState → ℕ → StreamRow → ℤ → MetadataState
  assign s stream_id row winner = record s {
    streams = insert s.streams stream_id (record row { node_id = winner });
    placed_by_node = insert s.placed_by_node (winner, stream_id) tt;
  }

  unfoldable pub place_stream : ℕ → MetadataState → Outcome MetadataState MetadataResult
  place_stream stream_id s = attempt (require_stream s stream_id) s λ row.
      if not (eqb_ℤ row.node_id no_node)
      then (ok (id (int_as_u64 row.node_id)), s)
      else if is_opened row.state || not (eqb_ℤ row.epoch no_epoch)
      then (err unexpected, s)
      else elim (find_winner s none (iter s.nodes)) [
        | none ↦ (err (node_epoch_mismatch no_node), s)
        | some (winner, _) ↦ (ok (id (int_as_u64 winner)), assign s stream_id row winner)
      ]

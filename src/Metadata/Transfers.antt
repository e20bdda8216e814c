-- ===== src/Metadata/Transfers.antt =====
-- Moves of open streams between nodes: `transfer_stream` and `complete_transfer` of
-- picomq/pico-metadata/src/apply.rs.
use streamstack.Prelude.{
  ℕ, ℤ, eqb_ℤ, Bool, false, not, ◌&&◌, ◌||◌, Option, none, some, ltb, if◌then◌else◌,
}
use streamstack.OrdMap.{OrdMap}
use streamstack.OrdMap.Keys.{u64_key, i32_key, pair_key, triple_key}
use streamstack.Metadata.Types.{
  NodeRow, MetadataResult, unit, ok, err, stream_not_closed, expired_epoch, node_epoch_mismatch,
  redundant, unexpected,
}
use streamstack.Metadata.State.{MetadataState, is_opened, Outcome, attempt}
use streamstack.Metadata.Streams.{require_stream}

module _ ⦃im : OrdMap⦄ where
  open im use {Map, get, insert, remove, iter, range, range_to}

  -- Whether the target of a transfer is registered and has a slot.
  abbrev pub has_slots : Option NodeRow → Bool
  has_slots none = false
  has_slots (some node) = not (ltb node.slots 1)

  unfoldable pub transfer_stream : ℕ → ℤ → ℤ → MetadataState → Outcome MetadataState MetadataResult
  transfer_stream stream_id from_node to_node s = attempt (require_stream s stream_id) s λ row.
      elim (get s.pending_transfers stream_id) [
        | some pending ↦
            if eqb_ℤ pending.from_node from_node && eqb_ℤ pending.to_node to_node
            then (ok unit, s)
            else (err unexpected, s)
        | none ↦
            if eqb_ℤ from_node to_node
            then (err unexpected, s)
            else if not (has_slots (get s.nodes to_node))
            then (err (node_epoch_mismatch to_node), s)
            else if not (is_opened row.state) || not (eqb_ℤ row.node_id from_node)
            then (err unexpected, s)
            else (
              ok unit,
              record s {
                pending_transfers =
                    insert s.pending_transfers stream_id
                      (record { from_node = from_node; to_node = to_node });
              },
            )
      ]

  unfoldable pub complete_transfer : ℕ → ℤ → MetadataState → Outcome MetadataState MetadataResult
  complete_transfer stream_id epoch s = elim (get s.pending_transfers stream_id) [
    | none ↦ (err redundant, s)
    | some pending ↦ attempt (require_stream s stream_id) s λ row.
        if is_opened row.state
        then (err (stream_not_closed stream_id), s)
        else if not (eqb_ℤ row.epoch epoch)
        then (err (expired_epoch stream_id epoch), s)
        else (
          ok unit,
          record s {
            streams = insert s.streams stream_id (record row { node_id = pending.to_node });
            pending_transfers = remove s.pending_transfers stream_id;
          },
        )
  ]

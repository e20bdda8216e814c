-- ===== src/Metadata/Fencing/Nodes.antt =====
-- The fences on node epochs.
use streamstack.Prelude.{
  ℕ, ℤ, eqb_ℤ_iff, ltb_ℤ_iff, ◌<ℤ◌, ◌≡◌, ◌≢◌, Option, none, some, List, arith, Option-cases, inl,
  inr,
}
use streamstack.OrdMap.{OrdMap}
use streamstack.OrdMap.Keys.{u64_key, i32_key, pair_key, triple_key}
use streamstack.Metadata.State.{MetadataState}
use streamstack.Metadata.Nodes.{node_epoch_check, register_node}
use streamstack.Metadata.Types
use streamstack.Metadata.Types.{
  MetadataCommand, MetadataResult, Bytes, node_epoch_mismatch, StreamRow, NodeRow, ok, err,
}
use streamstack.Metadata.Indexed.{IsIndexed}
use streamstack.Metadata.Indexed.Replay.{AllAdmissible}
use streamstack.Metadata.Evolution.Replay.{AllInOrder, replay-Evolves}
use streamstack.Metadata.Apply.{apply, apply_inner, replay}
use streamstack.Metadata.Streams.{
  create_stream, create_streams, open_stream, trim_stream, close_stream,
}
use streamstack.Metadata.Deletion.{delete_stream}
use streamstack.Metadata.Leases.{prepare_object}
use streamstack.Metadata.Commit.{commit_stream_set_object}
use streamstack.Metadata.Compaction.{compact_stream_object}

-- The node and the node epoch that a handler passes to `node_epoch_check`. A registration has a test
-- of its own, and the handlers of the other eight commands have none.
abbrev pub checked_node : MetadataCommand → Option (ℤ × ℤ)
checked_node (Types.create_stream n ne) = some (n, ne)
checked_node (Types.open_stream n ne i e) = some (n, ne)
checked_node (Types.trim_stream n ne i e o) = some (n, ne)
checked_node (Types.close_stream n ne i e) = some (n, ne)
checked_node (Types.delete_stream n ne i e) = some (n, ne)
checked_node (Types.prepare_object n ne c ttl now) = some (n, ne)
checked_node (Types.commit_stream_set_object n ne r now) = some (n, ne)
checked_node (Types.compact_stream_object n ne r now) = some (n, ne)
checked_node (Types.create_streams n ne c) = some (n, ne)
checked_node _ = none

-- The node and the node epoch that a command carries.
abbrev pub identity : MetadataCommand → Option (ℤ × ℤ)
identity (Types.register_node n ne a w) = some (n, ne)
identity c = checked_node c

module _ ⦃im : OrdMap⦄ where
  open im use {get}

  node_epoch_check_stale :
      (s : MetadataState) (n ne : ℤ)
      → ((node : NodeRow) → get s.nodes n ≡ some node → node.epoch ≢ ne)
      → node_epoch_check s n ne ≡ err (node_epoch_mismatch n)
  unfolding node_epoch_check
  node_epoch_check_stale s n ne h = elim (Option-cases (get s.nodes n)) [
    | inl q ↦ rw (q, node_epoch_check)
    | inr (node, q) ↦
        rw (q, node_epoch_check)
          (ground (arith, eqb_ℤ_iff node.epoch ne, λ (z : node.epoch ≡ ne). h node q z))
  ]

  -- A command that creates one or more streams, opens, trims, closes or deletes a stream, prepares
  -- objects, commits a stream-set object or compacts stream objects is refused with
  -- NodeEpochMismatch, and changes nothing, unless the node that it names is registered under the
  -- very epoch that it carries.
  pub node_fenced :
      (c : MetadataCommand) (s : MetadataState) (n ne : ℤ)
      → checked_node c ≡ some (n, ne)
      → ((node : NodeRow) → get s.nodes n ≡ some node → node.epoch ≢ ne)
      → apply c s ≡ (err (node_epoch_mismatch n), s)
  unfolding apply apply_inner create_stream create_streams open_stream trim_stream close_stream
      delete_stream prepare_object commit_stream_set_object compact_stream_object
  node_fenced c s n ne h k = ground (arith, h, node_epoch_check_stale s n ne k)

  stale_register :
      (s : MetadataState) (n ne : ℤ) (a : Bytes) (w : ℕ) (node : NodeRow)
      → get s.nodes n ≡ some node
      → ne <ℤ node.epoch
      → apply (Types.register_node n ne a w) s ≡ (err (node_epoch_mismatch n), s)
  unfolding apply apply_inner register_node
  stale_register s n ne a w node q l = ground (arith, q, ltb_ℤ_iff ne node.epoch)

  stale_node :
      (c : MetadataCommand) (s : MetadataState) (n ne : ℤ) (node : NodeRow)
      → identity c ≡ some (n, ne)
      → get s.nodes n ≡ some node
      → ne <ℤ node.epoch
      → apply c s ≡ (err (node_epoch_mismatch n), s)
  stale_node (Types.register_node m me a w) s n ne node h q l =
      ground (arith, h, q, stale_register s n ne a w node q l)
  stale_node c s n ne node h q l =
      node_fenced c s n ne h λ m p. ground (arith, p, q, eqb_ℤ_iff m.epoch ne)

  -- From a state whose indexes accord with its rows, and over a log in which no node registers
  -- under -1, the ids do not run out and the ranges of commits have their ends not before their
  -- starts: once a node is registered, every command that carries its id with an older node
  -- epoch, a registration included, is refused with NodeEpochMismatch and changes nothing.
  -- Commands that carry no node and node epoch are not covered.
  pub replaced_node_fenced :
      (log : List MetadataCommand) (s : MetadataState) (c : MetadataCommand) (n ne : ℤ)
      (node : NodeRow)
      → IsIndexed s
      → AllAdmissible log s
      → AllInOrder log
      → get s.nodes n ≡ some node
      → identity c ≡ some (n, ne)
      → ne <ℤ node.epoch
      → apply c (replay log s) ≡ (err (node_epoch_mismatch n), replay log s)
  replaced_node_fenced log s c n ne node v h o q w l =
      elim (Option-cases (get (replay log s).nodes n)) [
        | inl q' ↦ absurd (ground (arith, (replay-Evolves log s h o v).nodes n, q, q'))
        | inr (node', q') ↦ stale_node c (replay log s) n ne node' w q' (
            ground (
              arith,
              (replay-Evolves log s h o v).nodes n,
              q,
              q',
              ltb_ℤ_iff node'.epoch node.epoch,
            ))
      ]

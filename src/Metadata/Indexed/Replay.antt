-- ===== src/Metadata/Indexed/Replay.antt =====
-- Every command keeps the indexes of the stream table right, so every log does.
use streamstack.Prelude.{◌+◌, ◌<◌, u64_mod, ◌≢◌, inl, inr, Option-cases, List, [], ◌∷◌}
use streamstack.OrdMap.{OrdMap}
use streamstack.OrdMap.Keys.{text_key}
use streamstack.Metadata.Types
use streamstack.Metadata.Types.{MetadataCommand, Bytes}
use streamstack.Metadata.State.{MetadataState, empty_state, OnOk, returns}
use streamstack.Metadata.Streams.{no_node, max_create_streams}
use streamstack.Metadata.Apply.{apply, apply_inner, replay, settle_cases}
use streamstack.Metadata.Destroyed.{clean_destroyed_objects, clean_each}
use streamstack.Metadata.Kv.{put_kv, put_kv_if_absent, delete_kv}
use streamstack.Metadata.Indexed.{IsIndexed, IsIndexed-frame, empty_state-IsIndexed}
use streamstack.Metadata.Indexed.Frames.{stream_plane-clean_each}
use streamstack.Metadata.Indexed.Streams.{
  create_stream-IsIndexed, create_streams-IsIndexed, open_stream-IsIndexed, trim_stream-IsIndexed,
  close_stream-IsIndexed,
}
use streamstack.Metadata.Indexed.Placement.{place_stream-IsIndexed, register_node-IsIndexed}
use streamstack.Metadata.Indexed.Transfers.{transfer_stream-IsIndexed, complete_transfer-IsIndexed}
use streamstack.Metadata.Indexed.Deletion.{delete_stream-IsIndexed}
use streamstack.Metadata.Indexed.Commit.{
  commit_stream_set_object-IsIndexed, compact_stream_object-IsIndexed, prepare_object-IsIndexed,
  expire_prepared_objects-IsIndexed,
}

module _ ⦃im : OrdMap⦄ where
  -- No node registers under the sentinel -1, and the stream ids have room below 2 ^ 64.
  abbrev pub Admissible : MetadataState → MetadataCommand → Type 0
  Admissible s (Types.register_node n e a w) = n ≢ no_node
  Admissible s (Types.create_stream n e) = s.next_stream_id + 1 < u64_mod
  Admissible s (Types.create_streams n e c) = s.next_stream_id + max_create_streams < u64_mod
  Admissible s _ = Unit

  abbrev pub AllAdmissible : List MetadataCommand → MetadataState → Type 0
  AllAdmissible [] s = Unit
  AllAdmissible (c ∷ log) s = Admissible s c × AllAdmissible log (apply c s).1

  put_kv_if_absent-IsIndexed :
      (k w : Bytes) (s : MetadataState)
      → IsIndexed s
      → OnOk (λ t _. IsIndexed t) (put_kv_if_absent k w s)
  unfolding put_kv_if_absent
  put_kv_if_absent-IsIndexed k w s v = elim (Option-cases (im.get s.kv k)) [
    | inl q ↦ rw (q, put_kv_if_absent) (returns v)
    | inr (_, q) ↦ rw (q, put_kv_if_absent) (returns v)
  ]

  apply_inner-IsIndexed :
      (c : MetadataCommand) (s : MetadataState)
      → Admissible s c
      → IsIndexed s
      → OnOk (λ t _. IsIndexed t) (apply_inner c s)
  unfolding apply_inner put_kv put_kv_if_absent delete_kv clean_destroyed_objects
  apply_inner-IsIndexed (Types.register_node n e a w) s h v = register_node-IsIndexed n e a w s h v
  apply_inner-IsIndexed (Types.place_stream i) s h v = place_stream-IsIndexed i s v
  apply_inner-IsIndexed (Types.create_stream n ne) s h v = create_stream-IsIndexed n ne s h v
  apply_inner-IsIndexed (Types.open_stream n ne i e) s h v = open_stream-IsIndexed n ne i e s v
  apply_inner-IsIndexed (Types.trim_stream n ne i e o) s h v = trim_stream-IsIndexed n ne i e o s v
  apply_inner-IsIndexed (Types.close_stream n ne i e) s h v = close_stream-IsIndexed n ne i e s v
  apply_inner-IsIndexed (Types.delete_stream n ne i e) s h v = delete_stream-IsIndexed n ne i e s v
  apply_inner-IsIndexed (Types.prepare_object n ne c ttl now) s h v =
      prepare_object-IsIndexed n ne c ttl now s v
  apply_inner-IsIndexed (Types.commit_stream_set_object n ne r now) s h v =
      commit_stream_set_object-IsIndexed n ne r now s v
  apply_inner-IsIndexed (Types.compact_stream_object n ne r now) s h v =
      compact_stream_object-IsIndexed n ne r now s v
  apply_inner-IsIndexed (Types.expire_prepared_objects now) s h v =
      expire_prepared_objects-IsIndexed now s v
  apply_inner-IsIndexed (Types.clean_destroyed_objects ids) s h v =
      returns (IsIndexed-frame s (clean_each ids s) (stream_plane-clean_each ids s) v)
  apply_inner-IsIndexed (Types.put_kv k w) s h v = returns v
  apply_inner-IsIndexed (Types.put_kv_if_absent k w) s h v = put_kv_if_absent-IsIndexed k w s v
  apply_inner-IsIndexed (Types.delete_kv k) s h v = returns v
  apply_inner-IsIndexed (Types.transfer_stream i from to) s h v =
      transfer_stream-IsIndexed i from to s v
  apply_inner-IsIndexed (Types.complete_transfer i e) s h v = complete_transfer-IsIndexed i e s v
  apply_inner-IsIndexed (Types.create_streams n ne c) s h v = create_streams-IsIndexed n ne c s h v

  -- From a state in which the stream table and its indexes are in accord, one command, whether
  -- it succeeds or fails, leads to such a state: `opening_by_node` holds exactly the open
  -- streams under their nodes, `placed_by_node` exactly the placed ones that were never opened,
  -- a stream in transfer exists and was opened, and the ids from the next one on are free. The
  -- command registers no node under -1, and a creation leaves the stream ids below 2^64.
  pub apply-IsIndexed :
      (c : MetadataCommand) (s : MetadataState)
      → Admissible s c
      → IsIndexed s
      → IsIndexed (apply c s).1
  unfolding apply
  apply-IsIndexed c s h v = settle_cases IsIndexed v (apply_inner-IsIndexed c s h v)

  pub replay-IsIndexed :
      (log : List MetadataCommand) (s : MetadataState)
      → AllAdmissible log s
      → IsIndexed s
      → IsIndexed (replay log s)
  unfolding replay
  replay-IsIndexed [] s h v = v
  replay-IsIndexed (c ∷ log) s h v =
      replay-IsIndexed log (apply c s).1 h.1 (apply-IsIndexed c s h.0 v)

  -- Every log of commands, none of which registers a node under -1 or uses up the stream ids,
  -- leads from the empty state to one in which the stream table and its indexes are in accord.
  pub reachable-IsIndexed :
      (log : List MetadataCommand)
      → AllAdmissible log empty_state
      → IsIndexed (replay log empty_state)
  reachable-IsIndexed log h = replay-IsIndexed log empty_state h empty_state-IsIndexed

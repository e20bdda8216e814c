-- ===== src/Metadata/Apply.antt =====
-- `apply` and `apply_inner` of picomq/pico-metadata/src/apply.rs, and a log of commands.
use streamstack.Prelude.{List, [], ◌∷◌}
use streamstack.OrdMap.{OrdMap}
use streamstack.Metadata.Types
use streamstack.Metadata.Types.{MetadataCommand, MetadataResult, ok, err}
use streamstack.Metadata.State.{MetadataState, Outcome, OnOk, returns, fails}
use streamstack.Metadata.Nodes.{register_node}
use streamstack.Metadata.Destroyed.{clean_destroyed_objects}
use streamstack.Metadata.Streams.{
  create_stream, create_streams, open_stream, trim_stream, close_stream,
}
use streamstack.Metadata.Placement.{place_stream}
use streamstack.Metadata.Transfers.{transfer_stream, complete_transfer}
use streamstack.Metadata.Deletion.{delete_stream}
use streamstack.Metadata.Leases.{prepare_object, expire_prepared_objects}
use streamstack.Metadata.Commit.{commit_stream_set_object}
use streamstack.Metadata.Compaction.{compact_stream_object}
use streamstack.Metadata.Kv.{put_kv, put_kv_if_absent, delete_kv}

-- The state advances on success only: a failed command is run on a clone that is dropped.
abbrev pub settle : {S A : Type 0} → S → Outcome S A → Outcome S A
settle s (ok r, s') = (ok r, s')
settle s (err e, s') = (err e, s)

pub settle_cases :
    {S A : Type 0} (P : S → Type 0) {s : S} {o : Outcome S A}
    → P s
    → OnOk (λ t _. P t) o
    → P (settle s o).1
settle_cases P p (returns q) = q
settle_cases P p fails = p

module _ ⦃im : OrdMap⦄ where
  unfoldable pub apply_inner :
      MetadataCommand → MetadataState → Outcome MetadataState MetadataResult
  apply_inner (Types.register_node n e a w) s = register_node n e a w s
  apply_inner (Types.place_stream i) s = place_stream i s
  apply_inner (Types.create_stream n ne) s = create_stream n ne s
  apply_inner (Types.open_stream n ne i e) s = open_stream n ne i e s
  apply_inner (Types.trim_stream n ne i e o) s = trim_stream n ne i e o s
  apply_inner (Types.close_stream n ne i e) s = close_stream n ne i e s
  apply_inner (Types.delete_stream n ne i e) s = delete_stream n ne i e s
  apply_inner (Types.prepare_object n ne c ttl now) s = prepare_object n ne c ttl now s
  apply_inner (Types.commit_stream_set_object n ne r now) s = commit_stream_set_object n ne r now s
  apply_inner (Types.compact_stream_object n ne r now) s = compact_stream_object n ne r now s
  apply_inner (Types.expire_prepared_objects now) s = expire_prepared_objects now s
  apply_inner (Types.clean_destroyed_objects ids) s = clean_destroyed_objects ids s
  apply_inner (Types.put_kv k v) s = put_kv k v s
  apply_inner (Types.put_kv_if_absent k v) s = put_kv_if_absent k v s
  apply_inner (Types.delete_kv k) s = delete_kv k s
  apply_inner (Types.transfer_stream i from to) s = transfer_stream i from to s
  apply_inner (Types.complete_transfer i e) s = complete_transfer i e s
  apply_inner (Types.create_streams n ne c) s = create_streams n ne c s

  unfoldable pub apply : MetadataCommand → MetadataState → Outcome MetadataState MetadataResult
  apply command s = settle s (apply_inner command s)

  -- The state after a log of commands, the failed ones included.
  unfoldable pub replay : List MetadataCommand → MetadataState → MetadataState
  replay [] s = s
  replay (command ∷ log) s = replay log (apply command s).1

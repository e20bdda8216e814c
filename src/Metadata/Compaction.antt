-- ===== src/Metadata/Compaction.antt =====
-- Compactions of the objects of one stream: `compact_stream_object` of
-- picomq/pico-metadata/src/apply.rs.
use streamstack.Prelude.{
  ℕ, ℤ, eqb_ℤ, u64_as_i64, not, ◌&&◌, none, some, List, [], ◌∷◌, ltb, ◌==◌, if◌then◌else◌,
}
use streamstack.OrdMap.{OrdMap}
use streamstack.OrdMap.Keys.{u64_key, i32_key, pair_key, triple_key}
use streamstack.Metadata.Types.{
  CompactStreamObjectRequest, noop_object_id, MetadataResult, unit, ok, err, expired_epoch,
  redundant, unexpected,
}
use streamstack.Metadata.State.{MetadataState, Outcome, attempt, chain}
use streamstack.Metadata.Nodes.{node_epoch_check}
use streamstack.Metadata.Destroyed.{mark_destroy_objects}
use streamstack.Metadata.Streams.{require_stream}
use streamstack.Metadata.Leases.{commit_prepared}
use streamstack.Metadata.Objects.{
  stream_object_committed, check_object_id_free, insert_stream_object,
}

module _ ⦃im : OrdMap⦄ where
  open im use {Map, get, insert, remove, iter, range, range_to}

  -- The loop that takes the sources of a compaction out of the indexes.
  unfoldable pub drop_sources : ℕ → List ℕ → MetadataState → MetadataState
  drop_sources stream_id [] s = s
  drop_sources stream_id (source_id ∷ ids) s =
      drop_sources stream_id ids (elim (get s.stream_object_ids source_id) [
        | none ↦ s
        | some k ↦
            if k.0 == stream_id
            then record s {
              stream_objects = remove s.stream_objects k;
              stream_object_ids = remove s.stream_object_ids source_id;
            }
            else s
      ])

  -- The writes of a compaction, after its checks.
  unfoldable pub replace_sources :
      CompactStreamObjectRequest → ℤ → MetadataState → Outcome MetadataState MetadataResult
  replace_sources request now_ms s =
      let s1 = commit_prepared request.object_id s in
      let s2 =
        if request.object_id == noop_object_id
        then s1
        else insert_stream_object request.stream_id request.object_id request.start_offset
            request.end_offset request.object_size request.attributes now_ms now_ms s1 in
      let s3 = drop_sources request.stream_id request.source_object_ids s2 in
      chain (mark_destroy_objects request.source_object_ids request.operations s3)
        λ _ s'. (ok unit, s')

  unfoldable pub compact_stream_object :
      ℤ → ℤ → CompactStreamObjectRequest → ℤ → MetadataState → Outcome MetadataState MetadataResult
  compact_stream_object node_id node_epoch request now_ms s =
      attempt (node_epoch_check s node_id node_epoch) s λ _.
        let stream_id = request.stream_id in
        let has_object = not (request.object_id == noop_object_id) in
        if has_object && stream_object_committed s stream_id request.object_id
        then (err redundant, s)
        else attempt (require_stream s stream_id) s λ row.
          if not (eqb_ℤ row.epoch (u64_as_i64 request.stream_epoch))
          then (err (expired_epoch stream_id (u64_as_i64 request.stream_epoch)), s)
          else if ltb row.end_offset request.end_offset
          then (err unexpected, s)
          else if ltb request.start_offset row.start_offset
          then (err unexpected, s)
          else (attempt
              (if has_object
                then check_object_id_free s request.object_id
                    (some (stream_id, request.start_offset, request.object_id))
                else ok tt)
              s λ _. replace_sources request now_ms s)

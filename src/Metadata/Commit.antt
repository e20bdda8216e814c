-- ===== src/Metadata/Commit.antt =====
-- Commits of stream-set objects and of the stream objects split from them:
-- `commit_stream_set_object` of picomq/pico-metadata/src/apply.rs, and the steps that it calls.
pub mod Epochs
pub mod Retry
use streamstack.Prelude.{
  ℕ, ℤ, min_ℤ, Bool, not, none, some, List, [], ◌∷◌, all, ltb, ◌==◌, if◌then◌else◌,
}
use streamstack.OrdMap.{OrdMap}
use streamstack.OrdMap.Keys.{u64_key, i32_key, pair_key, triple_key}
use streamstack.Metadata.Types.{
  ObjectStreamRange, StreamObject, CommitStreamSetObjectRequest, noop_object_id, delete,
  MetadataResult, unit, Result, ok, err, redundant, unexpected,
}
use streamstack.Metadata.State.{MetadataState, Outcome, attempt, chain}
use streamstack.Metadata.Nodes.{node_epoch_check}
use streamstack.Metadata.Destroyed.{mark_destroyed}
use streamstack.Metadata.Streams.{require_stream}
use streamstack.Metadata.Leases.{commit_prepared}
use streamstack.Metadata.Objects.{
  is_some, is_empty, stream_object_committed, check_object_id_free, insert_stream_set_object,
  insert_stream_object, remove_stream_set_object,
}

module _ ⦃im : OrdMap⦄ where
  open im use {Map, get, insert, remove, iter, range, range_to}

  unfoldable pub advance_end_offset :
      ℕ → ℕ → ℕ → Bool → MetadataState → Outcome MetadataState (Unit {0})
  advance_end_offset stream_id start_offset end_offset compact s =
      attempt (require_stream s stream_id) s λ row.
        if compact
        then (if ltb row.end_offset end_offset
            then (err unexpected, s)
            else if ltb start_offset row.start_offset
            then (err unexpected, s)
            else (ok tt, s))
        else if not (row.end_offset == start_offset)
        then (err unexpected, s)
        else (
          ok tt,
          record s {
            streams = insert s.streams stream_id (record row { end_offset = end_offset });
          },
        )

  unfoldable pub redundant_commit_check :
      MetadataState → CommitStreamSetObjectRequest → Result (Unit {0})
  redundant_commit_check s request =
      if not (request.object_id == noop_object_id)
      then (if is_some (get s.stream_set_objects request.object_id) then err redundant else ok tt)
      else if is_empty request.stream_objects
      then ok tt
      else if all (λ so. stream_object_committed s so.stream_id so.object_id) request.stream_objects
      then err redundant
      else ok tt

  -- The loop that looks the compacted objects up and takes the least of their data times.
  unfoldable pub oldest_data : MetadataState → List ℕ → ℤ → Result ℤ
  oldest_data s [] data_time_ms = ok data_time_ms
  oldest_data s (object_id ∷ ids) data_time_ms =
      let rest = λ (t : ℤ). oldest_data s ids t in
      elim (get s.stream_set_objects object_id) [
        | none ↦ err unexpected
        | some owned ↦ rest (min_ℤ data_time_ms owned.object.data_timestamp_ms)
      ]

  -- The loop that drops the compacted objects.
  unfoldable pub drop_compacted : List ℕ → MetadataState → MetadataState
  drop_compacted [] s = s
  drop_compacted (object_id ∷ ids) s =
      drop_compacted ids (mark_destroyed object_id delete (remove_stream_set_object object_id s))

  unfoldable pub advance_ranges :
      List ObjectStreamRange → Bool → MetadataState → Outcome MetadataState (Unit {0})
  advance_ranges [] compact s = (ok tt, s)
  advance_ranges (r ∷ ranges) compact s =
      chain (advance_end_offset r.stream_id r.start_offset r.end_offset compact s)
        λ _ s'. advance_ranges ranges compact s'

  -- The part of a commit for a stream-set object, which a request without one skips.
  unfoldable pub commit_object :
      ℤ
      → CommitStreamSetObjectRequest
      → Bool
      → ℤ
      → ℤ
      → MetadataState
      → Outcome MetadataState (Unit {0})
  commit_object node_id request compact data_time_ms now_ms s =
      if request.object_id == noop_object_id
      then (ok tt, s)
      else attempt (check_object_id_free s request.object_id none) s λ _.
        chain (advance_ranges request.stream_ranges compact (commit_prepared request.object_id s))
          λ _ s'. (ok tt, insert_stream_set_object node_id request data_time_ms now_ms s')

  unfoldable pub commit_one :
      StreamObject → Bool → ℤ → ℤ → MetadataState → Outcome MetadataState (Unit {0})
  commit_one so compact data_time_ms now_ms s =
      attempt
        (check_object_id_free s so.object_id (some (so.stream_id, so.start_offset, so.object_id))) s
        λ _.
          chain
            (advance_end_offset so.stream_id so.start_offset so.end_offset compact
              (commit_prepared so.object_id s))
            λ _ s'. (
              ok tt,
              insert_stream_object so.stream_id so.object_id so.start_offset so.end_offset
                  so.object_size so.attributes data_time_ms now_ms s',
            )

  unfoldable pub commit_stream_objects :
      List StreamObject → Bool → ℤ → ℤ → MetadataState → Outcome MetadataState (Unit {0})
  commit_stream_objects [] compact data_time_ms now_ms s = (ok tt, s)
  commit_stream_objects (so ∷ objects) compact data_time_ms now_ms s =
      chain (commit_one so compact data_time_ms now_ms s)
        λ _ s'. commit_stream_objects objects compact data_time_ms now_ms s'

  unfoldable pub commit_stream_set_object :
      ℤ
      → ℤ
      → CommitStreamSetObjectRequest
      → ℤ
      → MetadataState
      → Outcome MetadataState MetadataResult
  commit_stream_set_object node_id node_epoch request now_ms s =
      attempt (node_epoch_check s node_id node_epoch) s λ _.
        attempt (redundant_commit_check s request) s λ _.
          let compact = not (is_empty request.compacted_object_ids) in
          attempt (oldest_data s request.compacted_object_ids now_ms) s λ data_time_ms.
            chain
              (commit_object node_id request compact data_time_ms now_ms
                (drop_compacted request.compacted_object_ids s))
              λ _ s'.
                chain (commit_stream_objects request.stream_objects compact data_time_ms now_ms s')
                  λ _ s''. (ok unit, s'')

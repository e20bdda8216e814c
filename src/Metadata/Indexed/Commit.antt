-- ===== src/Metadata/Indexed/Commit.antt =====
-- Commits and compactions keep the indexes of the stream table right.
use streamstack.Prelude.{
  ℕ, ◌-◌, ℤ, pos, eqb_ℤ, add_u64, u64_max, ◌≡◌, Bool, not, ◌&&◌, none, some, List, [], ◌∷◌, arith,
  ◌∙◌, if◌then◌else◌, ltb, ◌==◌, max_ℤ, add_i64, u64_as_i64,
}
use streamstack.OrdMap.{OrdMap}
use streamstack.OrdMap.Keys.{u64_key, i32_key, pair_key, triple_key}
use streamstack.Metadata.State.{
  MetadataState, OnOk, returns, fails, OnOk-state, attempt_cases, chain_cases, if_cases,
}
use streamstack.Metadata.Nodes.{node_epoch_check}
use streamstack.Metadata.Types.{
  ObjectStreamRange, StreamObject, CommitStreamSetObjectRequest, CompactStreamObjectRequest,
  noop_object_id, ok,
}
use streamstack.Metadata.Streams.{require_stream}
use streamstack.Metadata.Leases.{
  expire_each, commit_prepared, prepare_object, expire_prepared_objects, lease,
}
use streamstack.Metadata.Destroyed.{mark_destroy_objects}
use streamstack.Metadata.Objects.{
  is_empty, stream_object_committed, check_object_id_free, insert_stream_set_object,
  insert_stream_object,
}
use streamstack.Metadata.Commit.{
  advance_end_offset, redundant_commit_check, oldest_data, drop_compacted, advance_ranges,
  commit_object, commit_one, commit_stream_objects, commit_stream_set_object,
}
use streamstack.Metadata.Compaction.{drop_sources, replace_sources, compact_stream_object}
use streamstack.Metadata.Indexed.{IsIndexed, IsIndexed-frame, stream_plane}
use streamstack.Metadata.Indexed.Streams.{require_stream_lem, offsets-IsIndexed}
use streamstack.Metadata.Indexed.Frames.{
  stream_plane-commit_prepared, stream_plane-drop_compacted, stream_plane-drop_sources,
  stream_plane-mark_destroy_objects, stream_plane-lease, stream_plane-expire_each,
}

module _ ⦃im : OrdMap⦄ where
  open im use {range_to}

  pub advance_end_offset-IsIndexed :
      (i start end : ℕ) (compact : Bool) (s : MetadataState)
      → IsIndexed s
      → OnOk (λ t _. IsIndexed t) (advance_end_offset i start end compact s)
  unfolding advance_end_offset
  advance_end_offset-IsIndexed i start end compact s v =
      attempt_cases (require_stream s i) s λ row e.
        if_cases compact
          (λ _.
            if_cases (ltb row.end_offset end) (λ _. fails)
              λ _. if_cases (ltb start row.start_offset) (λ _. fails) λ _. returns v)
          λ _.
            if_cases (not (row.end_offset == start)) (λ _. fails)
              λ _.
                returns
                  (offsets-IsIndexed i row row.start_offset end s (require_stream_lem s i row e) v)

  advance_ranges-IsIndexed :
      (ranges : List ObjectStreamRange) (compact : Bool) (s : MetadataState)
      → IsIndexed s
      → OnOk (λ t _. IsIndexed t) (advance_ranges ranges compact s)
  unfolding advance_ranges
  advance_ranges-IsIndexed [] compact s v = returns v
  advance_ranges-IsIndexed (r ∷ ranges) compact s v =
      chain_cases (advance_end_offset-IsIndexed r.stream_id r.start_offset r.end_offset compact s v)
        λ _ t w. advance_ranges-IsIndexed ranges compact t w

  commit_prepared-IsIndexed :
      (i : ℕ) (s : MetadataState) → IsIndexed s → IsIndexed (commit_prepared i s)
  commit_prepared-IsIndexed i s =
      IsIndexed-frame s (commit_prepared i s) (stream_plane-commit_prepared i s)

  commit_object-IsIndexed :
      (n : ℤ) (r : CommitStreamSetObjectRequest) (compact : Bool) (time now : ℤ) (s : MetadataState)
      → IsIndexed s
      → OnOk (λ t _. IsIndexed t) (commit_object n r compact time now s)
  unfolding commit_object insert_stream_set_object
  commit_object-IsIndexed n r compact time now s v =
      if_cases (r.object_id == noop_object_id) (λ _. returns v)
        λ _. attempt_cases (check_object_id_free s r.object_id none) s λ _ _.
          chain_cases
            (advance_ranges-IsIndexed r.stream_ranges compact _
              (commit_prepared-IsIndexed r.object_id s v))
            λ _ t w. returns w

  commit_one-IsIndexed :
      (so : StreamObject) (compact : Bool) (time now : ℤ) (s : MetadataState)
      → IsIndexed s
      → OnOk (λ t _. IsIndexed t) (commit_one so compact time now s)
  unfolding commit_one insert_stream_object
  commit_one-IsIndexed so compact time now s v =
      attempt_cases
        (check_object_id_free s so.object_id (some (so.stream_id, so.start_offset, so.object_id))) s
        λ _ _.
          chain_cases
            (advance_end_offset-IsIndexed so.stream_id so.start_offset so.end_offset compact _
              (commit_prepared-IsIndexed so.object_id s v))
            λ _ t w. returns w

  commit_stream_objects-IsIndexed :
      (objects : List StreamObject) (compact : Bool) (time now : ℤ) (s : MetadataState)
      → IsIndexed s
      → OnOk (λ t _. IsIndexed t) (commit_stream_objects objects compact time now s)
  unfolding commit_stream_objects
  commit_stream_objects-IsIndexed [] compact time now s v = returns v
  commit_stream_objects-IsIndexed (so ∷ objects) compact time now s v =
      chain_cases (commit_one-IsIndexed so compact time now s v)
        λ _ t w. commit_stream_objects-IsIndexed objects compact time now t w

  pub commit_stream_set_object-IsIndexed :
      (n ne : ℤ) (r : CommitStreamSetObjectRequest) (now : ℤ) (s : MetadataState)
      → IsIndexed s
      → OnOk (λ t _. IsIndexed t) (commit_stream_set_object n ne r now s)
  unfolding commit_stream_set_object
  commit_stream_set_object-IsIndexed n ne r now s v =
      let compact = not (is_empty r.compacted_object_ids) in
      attempt_cases (node_epoch_check s n ne) s λ _ _.
        attempt_cases (redundant_commit_check s r) s λ _ _.
          attempt_cases (oldest_data s r.compacted_object_ids now) s λ time _.
            chain_cases
              (commit_object-IsIndexed n r compact time now _ (
                IsIndexed-frame s (drop_compacted r.compacted_object_ids s)
                  (stream_plane-drop_compacted r.compacted_object_ids s) v))
              λ _ t w.
                chain_cases (commit_stream_objects-IsIndexed r.stream_objects compact time now t w)
                  λ _ u x. returns x

  mark_destroy_objects-IsIndexed :
      (r : CompactStreamObjectRequest) (s : MetadataState)
      → IsIndexed s
      → OnOk (λ t _. IsIndexed t) (mark_destroy_objects r.source_object_ids r.operations s)
  mark_destroy_objects-IsIndexed r s v =
      OnOk-state (mark_destroy_objects r.source_object_ids r.operations s) (
        IsIndexed-frame s (mark_destroy_objects r.source_object_ids r.operations s).1
          (stream_plane-mark_destroy_objects r.source_object_ids r.operations s) v)

  -- The writes of a compaction before it marks the sources.
  abbrev pub replaced : CompactStreamObjectRequest → ℤ → MetadataState → MetadataState
  replaced r now s =
      let s1 = commit_prepared r.object_id s in
      drop_sources r.stream_id r.source_object_ids (
        if r.object_id == noop_object_id
        then s1
        else insert_stream_object r.stream_id r.object_id r.start_offset r.end_offset r.object_size
            r.attributes now now s1)

  pub stream_plane-replaced :
      (r : CompactStreamObjectRequest) (now : ℤ) (s : MetadataState)
      → stream_plane (replaced r now s) ≡ stream_plane s
  unfolding insert_stream_object
  stream_plane-replaced r now s =
      stream_plane-drop_sources r.stream_id r.source_object_ids _
      ∙ ground (arith, stream_plane-commit_prepared r.object_id s)

  replace_sources-IsIndexed :
      (r : CompactStreamObjectRequest) (now : ℤ) (s : MetadataState)
      → IsIndexed s
      → OnOk (λ t _. IsIndexed t) (replace_sources r now s)
  unfolding replace_sources
  replace_sources-IsIndexed r now s v =
      chain_cases
        (mark_destroy_objects-IsIndexed r (replaced r now s)
          (IsIndexed-frame s (replaced r now s) (stream_plane-replaced r now s) v))
        λ _ t w. returns w

  pub compact_stream_object-IsIndexed :
      (n ne : ℤ) (r : CompactStreamObjectRequest) (now : ℤ) (s : MetadataState)
      → IsIndexed s
      → OnOk (λ t _. IsIndexed t) (compact_stream_object n ne r now s)
  unfolding compact_stream_object
  compact_stream_object-IsIndexed n ne r now s v =
      let has_object = not (r.object_id == noop_object_id) in
      attempt_cases (node_epoch_check s n ne) s λ _ _.
        if_cases (has_object && stream_object_committed s r.stream_id r.object_id) (λ _. fails)
          λ _. attempt_cases (require_stream s r.stream_id) s λ row _.
            if_cases (not (eqb_ℤ row.epoch (u64_as_i64 r.stream_epoch))) (λ _. fails)
              λ _.
                if_cases (ltb row.end_offset r.end_offset) (λ _. fails)
                  λ _.
                    if_cases (ltb r.start_offset row.start_offset) (λ _. fails)
                      λ _.
                        attempt_cases
                          (if has_object
                            then check_object_id_free s r.object_id
                                (some (r.stream_id, r.start_offset, r.object_id))
                            else ok tt)
                          s λ _ _. replace_sources-IsIndexed r now s v

  pub prepare_object-IsIndexed :
      (n ne : ℤ) (rounds : ℕ) (ttl now : ℤ) (s : MetadataState)
      → IsIndexed s
      → OnOk (λ t _. IsIndexed t) (prepare_object n ne rounds ttl now s)
  unfolding prepare_object
  prepare_object-IsIndexed n ne rounds ttl now s v =
      let first = s.next_object_id in
      let s1 = record s { next_object_id = add_u64 first rounds } in
      let deadline = add_i64 now (max_ℤ ttl (pos 0)) in
      let n_ids = add_u64 first rounds - first in
      attempt_cases (node_epoch_check s n ne) s λ _ _.
        if_cases (rounds == 0) (λ _. fails)
          λ _. returns (
            IsIndexed-frame s (lease n_ids first deadline s1)
              (stream_plane-lease n_ids first deadline s1) v)

  pub expire_prepared_objects-IsIndexed :
      (now : ℤ) (s : MetadataState)
      → IsIndexed s
      → OnOk (λ t _. IsIndexed t) (expire_prepared_objects now s)
  unfolding expire_prepared_objects
  expire_prepared_objects-IsIndexed now s v =
      let expired = range_to s.prepared_by_deadline (now, u64_max) in
      returns (IsIndexed-frame s (expire_each expired s) (stream_plane-expire_each expired s) v)

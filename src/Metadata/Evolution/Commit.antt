-- ===== src/Metadata/Evolution/Commit.antt =====
-- Commits let the rows of the streams evolve: end offsets only rise.
use streamstack.Prelude.{
  ℕ, ◌-◌, ◌≤◌, ℤ, pos, eqb_ℤ, eqb_ℤ_iff, ltb_ℤ_iff, add_u64, u64_max, Bool, not, ◌&&◌, none, some,
  List, [], ◌∷◌, arith, refl, ◌∙◌, if◌then◌else◌, ltb, ◌==◌, max_ℤ, add_i64, u64_as_i64,
}
use streamstack.OrdMap.{OrdMap}
use streamstack.OrdMap.Keys.{u64_key, i32_key, pair_key, triple_key}
use streamstack.Metadata.State.{
  MetadataState, OnOk, returns, fails, OnOk-state, OnOk-map, attempt_cases, chain_cases, if_cases,
}
use streamstack.Metadata.Nodes.{node_epoch_check}
use streamstack.Metadata.Types.{
  ObjectStreamRange, StreamObject, CommitStreamSetObjectRequest, CompactStreamObjectRequest,
  noop_object_id, ok,
}
use streamstack.Metadata.Streams.{require_stream}
use streamstack.Metadata.Leases.{
  expire_each, commit_prepared, prepare_object, expire_prepared_objects, lease,
}
use streamstack.Metadata.Destroyed.{mark_destroy_objects}
use streamstack.Metadata.Objects.{
  is_empty, stream_object_committed, check_object_id_free, insert_stream_set_object,
  insert_stream_object,
}
use streamstack.Metadata.Commit.{
  advance_end_offset, redundant_commit_check, oldest_data, drop_compacted, advance_ranges,
  commit_object, commit_one, commit_stream_objects, commit_stream_set_object,
}
use streamstack.Metadata.Compaction.{replace_sources, compact_stream_object}
use streamstack.Metadata.Indexed.Streams.{require_stream_lem}
use streamstack.Metadata.Indexed.Frames.{
  stream_plane-commit_prepared, stream_plane-drop_compacted, stream_plane-mark_destroy_objects,
  stream_plane-lease, stream_plane-expire_each,
}
use streamstack.Metadata.Indexed.Commit.{replaced, stream_plane-replaced}
use streamstack.Metadata.Evolution.{
  Evolves, Evolves-refl, Evolves-trans, Evolves-write, Evolves-frame, Bounded,
}

module _ ⦃im : OrdMap⦄ where
  open im use {
    Map, get, insert, remove, iter, range, range_to, get-insert, get-remove, get-iter, range-iter,
  }

  pub advance_end_offset-Evolves :
      (i start end : ℕ) (compact : Bool) (s : MetadataState)
      → start ≤ end
      → OnOk (λ t _. Evolves s t) (advance_end_offset i start end compact s)
  unfolding advance_end_offset
  advance_end_offset-Evolves i start end compact s l = attempt_cases (require_stream s i) s λ row e.
      if_cases compact
        (λ _.
          if_cases (ltb row.end_offset end) (λ _. fails)
            λ _. if_cases (ltb start row.start_offset) (λ _. fails) λ _. returns (Evolves-refl s))
        λ _.
          if_cases (not (row.end_offset == start)) (λ _. fails)
            λ f. returns (
              Evolves-write s _ i (record row { end_offset = end }) (omega arith) refl refl
                (ground (
                  arith,
                  f,
                  require_stream_lem s i row e,
                  ltb_ℤ_iff row.epoch row.epoch,
                  eqb_ℤ_iff row.node_id row.node_id,
                )))

-- The offsets of a request are in order.
abbrev pub Ordered : List ObjectStreamRange → Type 0
Ordered [] = Unit
Ordered (r ∷ ranges) = (r.start_offset ≤ r.end_offset) × Ordered ranges

abbrev pub OrderedObjects : List StreamObject → Type 0
OrderedObjects [] = Unit
OrderedObjects (so ∷ objects) = (so.start_offset ≤ so.end_offset) × OrderedObjects objects

module _ ⦃im : OrdMap⦄ (s0 : MetadataState) (b : Bounded s0) where
  advance-Evolves :
      (i start end : ℕ) (compact : Bool) (s : MetadataState)
      → start ≤ end
      → Evolves s0 s
      → OnOk (λ t _. Evolves s0 t) (advance_end_offset i start end compact s)
  advance-Evolves i start end compact s l e =
      OnOk-map (advance_end_offset-Evolves i start end compact s l) λ t _ f. Evolves-trans b e f

  advance_ranges-Evolves :
      (ranges : List ObjectStreamRange) (compact : Bool) (s : MetadataState)
      → Ordered ranges
      → Evolves s0 s
      → OnOk (λ t _. Evolves s0 t) (advance_ranges ranges compact s)
  unfolding advance_ranges
  advance_ranges-Evolves [] compact s o v = returns v
  advance_ranges-Evolves (r ∷ ranges) compact s o v =
      chain_cases (advance-Evolves r.stream_id r.start_offset r.end_offset compact s o.0 v)
        λ _ t w. advance_ranges-Evolves ranges compact t o.1 w

  commit_prepared-Evolves :
      (i : ℕ) (s : MetadataState) → Evolves s0 s → Evolves s0 (commit_prepared i s)
  commit_prepared-Evolves i s =
      Evolves-frame s0 s (commit_prepared i s) (stream_plane-commit_prepared i s)

  commit_object-Evolves :
      (n : ℤ) (r : CommitStreamSetObjectRequest) (compact : Bool) (time now : ℤ) (s : MetadataState)
      → Ordered r.stream_ranges
      → Evolves s0 s
      → OnOk (λ t _. Evolves s0 t) (commit_object n r compact time now s)
  unfolding commit_object
  commit_object-Evolves n r compact time now s o v =
      if_cases (r.object_id == noop_object_id) (λ _. returns v)
        λ _. attempt_cases (check_object_id_free s r.object_id none) s λ _ _.
          chain_cases
            (advance_ranges-Evolves r.stream_ranges compact (commit_prepared r.object_id s) o
              (commit_prepared-Evolves r.object_id s v))
            λ _ t w. returns (
              Evolves-frame s0 t (insert_stream_set_object n r time now t)
                (unfold insert_stream_set_object in refl) w)

  commit_one-Evolves :
      (so : StreamObject) (compact : Bool) (time now : ℤ) (s : MetadataState)
      → so.start_offset ≤ so.end_offset
      → Evolves s0 s
      → OnOk (λ t _. Evolves s0 t) (commit_one so compact time now s)
  unfolding commit_one insert_stream_object
  commit_one-Evolves so compact time now s o v =
      attempt_cases
        (check_object_id_free s so.object_id (some (so.stream_id, so.start_offset, so.object_id))) s
        λ _ _.
          chain_cases
            (advance-Evolves so.stream_id so.start_offset so.end_offset compact
              (commit_prepared so.object_id s) o (commit_prepared-Evolves so.object_id s v))
            λ _ t w. returns (Evolves-frame s0 t _ refl w)

  commit_stream_objects-Evolves :
      (objects : List StreamObject) (compact : Bool) (time now : ℤ) (s : MetadataState)
      → OrderedObjects objects
      → Evolves s0 s
      → OnOk (λ t _. Evolves s0 t) (commit_stream_objects objects compact time now s)
  unfolding commit_stream_objects
  commit_stream_objects-Evolves [] compact time now s o v = returns v
  commit_stream_objects-Evolves (so ∷ objects) compact time now s o v =
      chain_cases (commit_one-Evolves so compact time now s o.0 v)
        λ _ t w. commit_stream_objects-Evolves objects compact time now t o.1 w

module _ ⦃im : OrdMap⦄ where
  open im use {range_to}

  pub commit_stream_set_object-Evolves :
      (n ne : ℤ) (r : CommitStreamSetObjectRequest) (now : ℤ) (s : MetadataState)
      → Ordered r.stream_ranges
      → OrderedObjects r.stream_objects
      → Bounded s
      → OnOk (λ t _. Evolves s t) (commit_stream_set_object n ne r now s)
  unfolding commit_stream_set_object
  commit_stream_set_object-Evolves n ne r now s o p b =
      let compact = not (is_empty r.compacted_object_ids) in
      let s1 = drop_compacted r.compacted_object_ids s in
      attempt_cases (node_epoch_check s n ne) s λ _ _.
        attempt_cases (redundant_commit_check s r) s λ _ _.
          attempt_cases (oldest_data s r.compacted_object_ids now) s λ time _.
            chain_cases
              (commit_object-Evolves s b n r compact time now s1 o (
                Evolves-frame s s s1 (stream_plane-drop_compacted r.compacted_object_ids s)
                  (Evolves-refl s)))
              λ _ t w.
                chain_cases
                  (commit_stream_objects-Evolves s b r.stream_objects compact time now t p w)
                  λ _ u x. returns x

  replace_sources-Evolves :
      (r : CompactStreamObjectRequest) (now : ℤ) (s : MetadataState)
      → OnOk (λ t _. Evolves s t) (replace_sources r now s)
  unfolding replace_sources
  replace_sources-Evolves r now s =
      let t = replaced r now s in
      let marked = mark_destroy_objects r.source_object_ids r.operations t in
      chain_cases
        (OnOk-state marked (
          Evolves-frame s s marked.1
            (stream_plane-mark_destroy_objects r.source_object_ids r.operations t
              ∙ stream_plane-replaced r now s)
            (Evolves-refl s)))
        λ _ u w. returns w

  pub compact_stream_object-Evolves :
      (n ne : ℤ) (r : CompactStreamObjectRequest) (now : ℤ) (s : MetadataState)
      → OnOk (λ t _. Evolves s t) (compact_stream_object n ne r now s)
  unfolding compact_stream_object
  compact_stream_object-Evolves n ne r now s =
      let has_object = not (r.object_id == noop_object_id) in
      attempt_cases (node_epoch_check s n ne) s λ _ _.
        if_cases (has_object && stream_object_committed s r.stream_id r.object_id) (λ _. fails)
          λ _. attempt_cases (require_stream s r.stream_id) s λ row _.
            if_cases (not (eqb_ℤ row.epoch (u64_as_i64 r.stream_epoch))) (λ _. fails)
              λ _.
                if_cases (ltb row.end_offset r.end_offset) (λ _. fails)
                  λ _.
                    if_cases (ltb r.start_offset row.start_offset) (λ _. fails)
                      λ _.
                        attempt_cases
                          (if has_object
                            then check_object_id_free s r.object_id
                                (some (r.stream_id, r.start_offset, r.object_id))
                            else ok tt)
                          s λ _ _. replace_sources-Evolves r now s

  pub prepare_object-Evolves :
      (n ne : ℤ) (rounds : ℕ) (ttl now : ℤ) (s : MetadataState)
      → OnOk (λ t _. Evolves s t) (prepare_object n ne rounds ttl now s)
  unfolding prepare_object
  prepare_object-Evolves n ne rounds ttl now s =
      let first = s.next_object_id in
      let s1 = record s { next_object_id = add_u64 first rounds } in
      let deadline = add_i64 now (max_ℤ ttl (pos 0)) in
      let n_ids = add_u64 first rounds - first in
      attempt_cases (node_epoch_check s n ne) s λ _ _.
        if_cases (rounds == 0) (λ _. fails)
          λ _. returns (
            Evolves-frame s s (lease n_ids first deadline s1)
              (stream_plane-lease n_ids first deadline s1) (Evolves-refl s))

  pub expire_prepared_objects-Evolves :
      (now : ℤ) (s : MetadataState) → OnOk (λ t _. Evolves s t) (expire_prepared_objects now s)
  unfolding expire_prepared_objects
  expire_prepared_objects-Evolves now s =
      let expired = range_to s.prepared_by_deadline (now, u64_max) in
      returns (
        Evolves-frame s s (expire_each expired s) (stream_plane-expire_each expired s)
          (Evolves-refl s))

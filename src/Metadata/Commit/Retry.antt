-- ===== src/Metadata/Commit/Retry.antt =====
-- A commit that is sent again after it was applied is redundant.
use streamstack.Prelude.{
  ℕ, ℤ, ◌≡◌, ◌≢◌, Bool, true, false, not, none, some, List, [], ◌∷◌, arith, refl, ap, ◌∙◌, ◌==◌,
}
use streamstack.OrdMap.{OrdMap}
use streamstack.OrdMap.Keys.{u64_key, i32_key, pair_key, triple_key}
use streamstack.Metadata.State.{
  MetadataState, OnOk, returns, OnOk-ok, OnOk-state, OnOk-map, attempt_cases, chain_cases, if_cases,
}
use streamstack.Metadata.Nodes.{node_epoch_check}
use streamstack.Metadata.Types.{
  ObjectStreamRange, StreamObject, CommitStreamSetObjectRequest, MetadataResult, noop_object_id,
  redundant, ok, err,
}
use streamstack.Metadata.Indexed.Frames.{stream_plane-drop_compacted}
use streamstack.Metadata.Leases.{commit_prepared}
use streamstack.Metadata.Objects.{
  is_some, is_empty, check_object_id_free, insert_stream_set_object, insert_stream_object,
}
use streamstack.Metadata.Commit.{
  advance_end_offset, redundant_commit_check, oldest_data, drop_compacted, advance_ranges,
  commit_object, commit_one, commit_stream_objects, commit_stream_set_object,
}

module _ ⦃im : OrdMap⦄ where
  open im use {
    Map, get, insert, remove, iter, range, range_to, get-insert, get-remove, get-iter, range-iter,
    range_to-iter, iter-Ascending,
  }

  -- The stream-set object is committed, and the nodes are those of `s`.
  record Committed (s : MetadataState) (object_id : ℕ) (t : MetadataState) : Type 0 where
    nodes : t.nodes ≡ s.nodes
    committed : is_some (get t.stream_set_objects object_id) ≡ true

  -- The two parts of a state that a step leaves alone.
  record Keeps (s t : MetadataState) : Type 0 where
    nodes : t.nodes ≡ s.nodes
    objects : t.stream_set_objects ≡ s.stream_set_objects

  Keeps-trans : {s t u : MetadataState} → Keeps s t → Keeps t u → Keeps s u
  Keeps-trans h k = record { nodes = k.nodes ∙ h.nodes; objects = k.objects ∙ h.objects }

  commit_prepared-Keeps : (i : ℕ) (s : MetadataState) → Keeps s (commit_prepared i s)
  unfolding commit_prepared
  commit_prepared-Keeps i s = record { nodes = ground arith; objects = ground arith }

  advance_end_offset-Keeps :
      (i start end : ℕ) (compact : Bool) (s : MetadataState)
      → OnOk (λ t _. Keeps s t) (advance_end_offset i start end compact s)
  unfolding advance_end_offset
  advance_end_offset-Keeps i start end compact s =
      OnOk-state (advance_end_offset i start end compact s)
        (record { nodes = ground arith; objects = ground arith })

  advance_ranges-Keeps :
      (ranges : List ObjectStreamRange) (compact : Bool) (s : MetadataState)
      → OnOk (λ t _. Keeps s t) (advance_ranges ranges compact s)
  unfolding advance_ranges
  advance_ranges-Keeps [] compact s = returns (record { nodes = refl; objects = refl })
  advance_ranges-Keeps (r ∷ ranges) compact s =
      chain_cases (advance_end_offset-Keeps r.stream_id r.start_offset r.end_offset compact s)
        λ _ t h. OnOk-map (advance_ranges-Keeps ranges compact t) λ u _ k. Keeps-trans h k

  commit_one-Keeps :
      (so : StreamObject) (compact : Bool) (time now : ℤ) (s : MetadataState)
      → OnOk (λ t _. Keeps s t) (commit_one so compact time now s)
  unfolding commit_one insert_stream_object
  commit_one-Keeps so compact time now s =
      attempt_cases
        (check_object_id_free s so.object_id (some (so.stream_id, so.start_offset, so.object_id))) s
        λ _ _.
          chain_cases
            (advance_end_offset-Keeps so.stream_id so.start_offset so.end_offset compact
              (commit_prepared so.object_id s))
            λ _ t h.
              let k = Keeps-trans (commit_prepared-Keeps so.object_id s) h in
              returns (record { nodes = k.nodes; objects = k.objects })

  commit_stream_objects-Keeps :
      (objects : List StreamObject) (compact : Bool) (time now : ℤ) (s : MetadataState)
      → OnOk (λ t _. Keeps s t) (commit_stream_objects objects compact time now s)
  unfolding commit_stream_objects
  commit_stream_objects-Keeps [] compact time now s =
      returns (record { nodes = refl; objects = refl })
  commit_stream_objects-Keeps (so ∷ objects) compact time now s =
      chain_cases (commit_one-Keeps so compact time now s) λ _ t h.
        OnOk-map (commit_stream_objects-Keeps objects compact time now t) λ u _ k. Keeps-trans h k

  commit_object-Committed :
      (n : ℤ) (r : CommitStreamSetObjectRequest) (compact : Bool) (time now : ℤ) (s : MetadataState)
      → (r.object_id == noop_object_id) ≡ false
      → OnOk (λ t _. Committed s r.object_id t) (commit_object n r compact time now s)
  unfolding commit_object insert_stream_set_object
  commit_object-Committed n r compact time now s h =
      if_cases (r.object_id == noop_object_id) (λ e. absurd (ground (arith, h, e)))
        λ _. attempt_cases (check_object_id_free s r.object_id none) s λ _ _.
          chain_cases (advance_ranges-Keeps r.stream_ranges compact (commit_prepared r.object_id s))
            λ _ t k. returns (record {
              nodes = k.nodes ∙ (commit_prepared-Keeps r.object_id s).nodes;
              committed = simp get-insert (ground arith);
            })

  drop_compacted-nodes : (ids : List ℕ) (s : MetadataState) → (drop_compacted ids s).nodes ≡ s.nodes
  drop_compacted-nodes ids s = ap (λ p. p.nodes) (stream_plane-drop_compacted ids s)

  commit-Committed :
      (n ne : ℤ) (r : CommitStreamSetObjectRequest) (now : ℤ) (s : MetadataState)
      → (r.object_id == noop_object_id) ≡ false
      → OnOk
          (λ t _. Committed s r.object_id t × (node_epoch_check s n ne ≡ ok tt))
          (commit_stream_set_object n ne r now s)
  unfolding commit_stream_set_object
  commit-Committed n ne r now s h =
      let compact = not (is_empty r.compacted_object_ids) in
      let s1 = drop_compacted r.compacted_object_ids s in
      attempt_cases (node_epoch_check s n ne) s λ _ registered.
        attempt_cases (redundant_commit_check s r) s λ _ _.
          attempt_cases (oldest_data s r.compacted_object_ids now) s λ time _.
            chain_cases (commit_object-Committed n r compact time now s1 h) λ _ t k.
              chain_cases (commit_stream_objects-Keeps r.stream_objects compact time now t) λ _ u l.
                returns (
                  record {
                    nodes = l.nodes ∙ (k.nodes ∙ drop_compacted-nodes r.compacted_object_ids s);
                    committed = rw l.objects k.committed;
                  },
                  registered,
                )

  retried :
      (n ne : ℤ) (r : CommitStreamSetObjectRequest) (later : ℤ) (s t : MetadataState)
      → (r.object_id == noop_object_id) ≡ false
      → Committed s r.object_id t
      → node_epoch_check s n ne ≡ ok tt
      → commit_stream_set_object n ne r later t ≡ (err redundant, t)
  unfolding commit_stream_set_object redundant_commit_check node_epoch_check
  retried n ne r later s t h k e = ground (arith, h, k.committed, same_check, e)
    where
      same_check : node_epoch_check t n ne ≡ node_epoch_check s n ne
      same_check = rw k.nodes

  -- A commit of a stream-set object, with an object id other than the no-op id, that succeeded
  -- is refused as redundant when the node sends it again, at whatever time, and the second one
  -- changes nothing.
  pub commit_retry :
      (n ne : ℤ) (r : CommitStreamSetObjectRequest) (now later : ℤ) (s t : MetadataState)
      (result : MetadataResult)
      → r.object_id ≢ noop_object_id
      → commit_stream_set_object n ne r now s ≡ (ok result, t)
      → commit_stream_set_object n ne r later t ≡ (err redundant, t)
  commit_retry n ne r now later s t result h e =
      let fresh : (r.object_id == noop_object_id) ≡ false = ground arith in
      let (k, registered) = OnOk-ok result t (rw e at (commit-Committed n ne r now s fresh)) in
      retried n ne r later s t fresh k registered

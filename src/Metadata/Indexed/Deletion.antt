-- ===== src/Metadata/Indexed/Deletion.antt =====
-- Deleting a stream keeps the indexes right.
use streamstack.Prelude.{
  u64_max, ℕ, ℤ, eqb_ℤ, ◌≡◌, false, not, none, some, List, [], ◌∷◌, arith, refl, ◌∙◌, if◌then◌else◌,
  ==_iff, ◌==◌, Option-cases, inl, inr,
}
use streamstack.OrdMap.{OrdMap, keep, lookup}
use streamstack.OrdMap.Keys.{u64_key, i32_key, pair_key, triple_key}
use streamstack.Metadata.State.{
  MetadataState, OnOk, returns, fails, attempt_cases, if_cases, is_opened,
}
use streamstack.Metadata.Nodes.{node_epoch_check}
use streamstack.Metadata.Types.{StreamRow, StreamObjectRow, delete}
use streamstack.Metadata.Deletion.{
  remove_keys, remove_placed_stream, drop_stream_objects, delete_stream,
}
use streamstack.Metadata.Indexed.{IsIndexed, IsIndexed-frame, stream_plane}
use streamstack.Metadata.Indexed.Frames.{stream_plane-mark_destroyed}

module _ ⦃im : OrdMap⦄ where
  open im use {
    Map, get, insert, remove, iter, range, range_to, get-insert, get-remove, get-iter, range-iter,
  }

  -- Removing keys that include `k` wherever the map has it leaves no `k`.
  get-remove_keys :
      (keys : List ((ℤ × ℕ) × Unit {0})) (m : Map (ℤ × ℕ) (Unit {0})) (n : ℤ) (j : ℕ)
      → get (remove_keys keys m) (n, j)
        ≡ elim (lookup keys (n, j)) [ none ↦ get m (n, j) | some _ ↦ none ]
  unfolding remove_keys
  get-remove_keys [] m n j = refl
  get-remove_keys (((n', j'), u) ∷ keys) m n j =
      ground (arith, get-remove_keys keys (remove m (n', j')) n j, get-remove m (n', j') (n, j))

  lookup-keep :
      (i : ℕ) (l : List ((ℤ × ℕ) × Unit {0})) (n : ℤ) (j : ℕ)
      → lookup (keep (λ e. e.0.1 == i) l) (n, j) ≡ (if j == i then lookup l (n, j) else none)
  lookup-keep i [] n j = ground arith
  lookup-keep i (((n', j'), u) ∷ l) n j = ground (arith, lookup-keep i l n j, ==_iff j' j)

  get-remove_placed_stream :
      (i : ℕ) (s : MetadataState) (n : ℤ) (j : ℕ)
      → get (remove_placed_stream i s).placed_by_node (n, j)
        ≡ (if i == j then none else get s.placed_by_node (n, j))
  unfolding remove_placed_stream
  get-remove_placed_stream i s n j = ground (
    arith,
    get-remove_keys (keep (λ e. e.0.1 == i) (iter s.placed_by_node)) s.placed_by_node n j,
    lookup-keep i (iter s.placed_by_node) n j,
    get-iter s.placed_by_node (n, j),
  )

  -- The state before the loop over the objects of the stream.
  abbrev pub deleted_state : ℕ → MetadataState → MetadataState
  deleted_state i s =
      let s2 = remove_placed_stream i (record s { streams = remove s.streams i }) in
      record s2 { pending_transfers = remove s2.pending_transfers i }

  deleted_state-IsIndexed :
      (i : ℕ) (row : StreamRow) (s : MetadataState)
      → get s.streams i ≡ some row
      → is_opened row.state ≡ false
      → IsIndexed s
      → IsIndexed (deleted_state i s)
  unfolding remove_placed_stream
  deleted_state-IsIndexed i row s e o v = record {
    opening = λ n j. simp get-remove (ground (arith, e, v.opening n j, ==_iff i j));
    placed = λ n j. ground (
      arith,
      e,
      v.placed n j,
      ==_iff i j,
      get-remove s.streams i j,
      get-remove_placed_stream i (record s { streams = remove s.streams i }) n j,
    );
    epochs = λ j. simp get-remove (ground (arith, e, v.epochs j, ==_iff i j));
    pending = λ j. simp get-remove (ground (arith, e, v.pending j, ==_iff i j));
    fresh = λ j h. simp get-remove (ground (arith, e, v.fresh j h, ==_iff i j));
    nodes = v.nodes;
  }

  pub stream_plane-drop_stream_objects :
      (keys : List ((ℕ × ℕ × ℕ) × StreamObjectRow)) (s : MetadataState)
      → stream_plane (drop_stream_objects keys s) ≡ stream_plane s
  unfolding drop_stream_objects
  stream_plane-drop_stream_objects [] s = refl
  stream_plane-drop_stream_objects ((k, _) ∷ keys) s =
      stream_plane-drop_stream_objects keys _ ∙ stream_plane-mark_destroyed k.2 delete _

  pub delete_stream-IsIndexed :
      (n ne : ℤ) (i : ℕ) (epoch : ℤ) (s : MetadataState)
      → IsIndexed s
      → OnOk (λ t _. IsIndexed t) (delete_stream n ne i epoch s)
  unfolding delete_stream
  delete_stream-IsIndexed n ne i epoch s v =
      let s3 = deleted_state i s in
      let keys = range s3.stream_objects (i, 0, 0) (i, u64_max, u64_max) in
      attempt_cases (node_epoch_check s n ne) s λ _ _. elim (Option-cases (get s.streams i)) [
        | inl q ↦ rw q (returns v)
        | inr (row, q) ↦ rw q (
            if_cases (is_opened row.state) (λ _. fails)
              λ o.
                if_cases (not (eqb_ℤ row.epoch epoch)) (λ _. fails)
                  λ _. returns (
                    IsIndexed-frame s3 (drop_stream_objects keys s3)
                      (stream_plane-drop_stream_objects keys s3)
                      (deleted_state-IsIndexed i row s q o v)))
      ]

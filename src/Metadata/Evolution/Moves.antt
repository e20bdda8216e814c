-- ===== src/Metadata/Evolution/Moves.antt =====
-- Placing, transferring and deleting streams lets their rows evolve.
use streamstack.Prelude.{
  ℕ, ℤ, eqb_ℤ, ltb_ℤ_iff, u64_max, ◌≡◌, false, not, ◌&&◌, ◌||◌, none, some, arith, refl, ==_iff,
  ltb, Option-cases, inl, inr,
}
use streamstack.OrdMap.{OrdMap}
use streamstack.OrdMap.Keys.{u64_key, i32_key, pair_key, triple_key}
use streamstack.Metadata.State.{
  MetadataState, OnOk, returns, fails, attempt_cases, if_cases, is_opened,
}
use streamstack.Metadata.Nodes.{node_epoch_check}
use streamstack.Metadata.Types.{StreamRow}
use streamstack.Metadata.Streams.{require_stream, no_node, no_epoch}
use streamstack.Metadata.Placement.{find_winner, assign, place_stream}
use streamstack.Metadata.Transfers.{transfer_stream, complete_transfer, has_slots}
use streamstack.Metadata.Deletion.{remove_placed_stream, drop_stream_objects, delete_stream}
use streamstack.Metadata.Indexed.Streams.{require_stream_lem}
use streamstack.Metadata.Indexed.Deletion.{deleted_state, stream_plane-drop_stream_objects}
use streamstack.Metadata.Evolution.{
  Evolves, Evolves-refl, Evolves-write, Evolves-frame, evolves_refl, node_evolves_refl,
}

module _ ⦃im : OrdMap⦄ where
  open im use {
    Map, get, insert, remove, iter, range, range_to, get-insert, get-remove, get-iter, range-iter,
  }

  assign-Evolves :
      (s : MetadataState) (i : ℕ) (row : StreamRow) (winner : ℤ)
      → get s.streams i ≡ some row
      → is_opened row.state ≡ false
      → Evolves s (assign s i row winner)
  unfolding assign
  assign-Evolves s i row winner e c =
      Evolves-write s _ i (record row { node_id = winner }) (omega arith) refl refl
        (ground (arith, e, c, ltb_ℤ_iff row.epoch row.epoch))

  pub place_stream-Evolves :
      (i : ℕ) (s : MetadataState) → OnOk (λ t _. Evolves s t) (place_stream i s)
  unfolding place_stream
  place_stream-Evolves i s = attempt_cases (require_stream s i) s λ row e.
      if_cases (not (eqb_ℤ row.node_id no_node)) (λ _. returns (Evolves-refl s))
        λ g.
          if_cases (is_opened row.state || not (eqb_ℤ row.epoch no_epoch)) (λ _. fails)
            λ h. elim (Option-cases (find_winner s none (iter s.nodes))) [
              | inl q ↦ rw q fails
              | inr ((winner, sc), q) ↦ rw q (
                  returns
                    (assign-Evolves s i row winner (require_stream_lem s i row e) (ground arith)))
            ]

  pub transfer_stream-Evolves :
      (i : ℕ) (from to : ℤ) (s : MetadataState)
      → OnOk (λ t _. Evolves s t) (transfer_stream i from to s)
  unfolding transfer_stream
  transfer_stream-Evolves i from to s =
      let same : Evolves s s = Evolves-refl s in
      attempt_cases (require_stream s i) s λ row e.
        elim (Option-cases (get s.pending_transfers i)) [
          | inr (p, q) ↦ rw q (
              if_cases (eqb_ℤ p.from_node from && eqb_ℤ p.to_node to) (λ _. returns same)
                (λ _. fails))
          | inl q ↦ rw q (
              if_cases (eqb_ℤ from to) (λ _. fails)
                λ _.
                  if_cases (not (has_slots (get s.nodes to))) (λ _. fails)
                    λ _.
                      if_cases (not (is_opened row.state) || not (eqb_ℤ row.node_id from))
                        (λ _. fails)
                        λ o.
                          returns
                            (record { next = same.next; rows = same.rows; nodes = same.nodes }))
        ]

  pub complete_transfer-Evolves :
      (i : ℕ) (epoch : ℤ) (s : MetadataState)
      → OnOk (λ t _. Evolves s t) (complete_transfer i epoch s)
  unfolding complete_transfer
  complete_transfer-Evolves i epoch s = elim (Option-cases (get s.pending_transfers i)) [
    | inl q ↦ rw (q, complete_transfer) fails
    | inr (p, q) ↦
        rw (q, complete_transfer)
          (attempt_cases (require_stream s i) s λ row e.
            if_cases (is_opened row.state) (λ _. fails)
              λ o.
                if_cases (not (eqb_ℤ row.epoch epoch)) (λ _. fails)
                  λ _. returns (
                    Evolves-write s _ i (record row { node_id = p.to_node }) (omega arith) refl refl
                      (ground
                        (arith, o, require_stream_lem s i row e, ltb_ℤ_iff row.epoch row.epoch))))
  ]

  deleted_state-Evolves :
      (i : ℕ) (row : StreamRow) (s : MetadataState)
      → get s.streams i ≡ some row
      → Evolves s (deleted_state i s)
  unfolding remove_placed_stream
  deleted_state-Evolves i row s e = record {
    next = omega arith;
    nodes = λ m. node_evolves_refl (get s.nodes m);
    rows = λ j.
        simp get-remove
          (ground (arith, e, ==_iff i j, evolves_refl (ltb j s.next_stream_id) (get s.streams j)));
  }

  pub delete_stream-Evolves :
      (n ne : ℤ) (i : ℕ) (epoch : ℤ) (s : MetadataState)
      → OnOk (λ t _. Evolves s t) (delete_stream n ne i epoch s)
  unfolding delete_stream
  delete_stream-Evolves n ne i epoch s =
      let s3 = deleted_state i s in
      let keys = range s3.stream_objects (i, 0, 0) (i, u64_max, u64_max) in
      attempt_cases (node_epoch_check s n ne) s λ _ _. elim (Option-cases (get s.streams i)) [
        | inl q ↦ rw q (returns (Evolves-refl s))
        | inr (row, q) ↦ rw q (
            if_cases (is_opened row.state) (λ _. fails)
              λ o.
                if_cases (not (eqb_ℤ row.epoch epoch)) (λ _. fails)
                  λ _. returns (
                    Evolves-frame s s3 (drop_stream_objects keys s3)
                      (stream_plane-drop_stream_objects keys s3) (deleted_state-Evolves i row s q)))
      ]

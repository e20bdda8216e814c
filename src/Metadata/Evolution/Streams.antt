-- ===== src/Metadata/Evolution/Streams.antt =====
-- Creating, opening, trimming and closing streams lets their rows evolve.
use streamstack.Prelude.{
  ℕ, ◌+◌, ◌<◌, ℤ, eqb_ℤ, ltb_ℤ, eqb_ℤ_iff, eq_of_parts, ltb_ℤ_iff, add_u64, u64_mod, ◌≡◌, not, ◌&&◌,
  arith, refl, ltb, ◌==◌,
}
use streamstack.OrdMap.{OrdMap}
use streamstack.OrdMap.Keys.{u64_key, i32_key, pair_key, triple_key}
use streamstack.Metadata.State.{
  MetadataState, OnOk, returns, fails, attempt_cases, if_cases, is_opened,
}
use streamstack.Metadata.Nodes.{node_epoch_check}
use native.Mathlib.Nat.{mod-eq_of_lt}
use streamstack.Metadata.Types.{opened, closed}
use streamstack.Metadata.Streams.{
  require_stream, require_opened_stream, create_stream, create_streams, insert_new_rows,
  open_stream, trim_stream, close_stream, max_create_streams,
}
use streamstack.Metadata.Indexed.Streams.{
  require_stream_lem, require_opened_stream_lem, get-insert_new_rows, add_sub,
}
use streamstack.Metadata.Evolution.{
  Evolves, Evolves-refl, Evolves-write, Bounded, evolves_refl, node_evolves_refl,
}

module _ ⦃im : OrdMap⦄ where
  open im use {
    Map, get, insert, remove, iter, range, range_to, get-insert, get-remove, get-iter, range-iter,
  }

  created-Evolves :
      (n : ℕ) (s : MetadataState)
      → Bounded s
      → Evolves s (record s {
        streams = insert_new_rows n s.next_stream_id s.streams;
        next_stream_id = s.next_stream_id + n;
      })
  created-Evolves n s b = record {
    next = omega arith;
    nodes = λ m. node_evolves_refl (get s.nodes m);
    rows = λ i.
        simp get-insert_new_rows
          (ground (arith, b i, evolves_refl (ltb i s.next_stream_id) (get s.streams i)));
  }

  pub create_stream-Evolves :
      (n ne : ℤ) (s : MetadataState)
      → s.next_stream_id + 1 < u64_mod
      → Bounded s
      → OnOk (λ t _. Evolves s t) (create_stream n ne s)
  unfolding create_stream insert_new_rows
  create_stream-Evolves n ne s room b =
      attempt_cases (node_epoch_check s n ne) s
        λ _ _. returns (rw (mod-eq_of_lt room) (created-Evolves 1 s b))

  pub create_streams-Evolves :
      (n ne : ℤ) (rounds : ℕ) (s : MetadataState)
      → s.next_stream_id + max_create_streams < u64_mod
      → Bounded s
      → OnOk (λ t _. Evolves s t) (create_streams n ne rounds s)
  unfolding create_streams
  create_streams-Evolves n ne rounds s room b = attempt_cases (node_epoch_check s n ne) s λ _ _.
      if_cases (rounds == 0) (λ _. fails)
        λ _.
          if_cases (ltb max_create_streams rounds) (λ _. fails)
            λ few.
              let e : add_u64 s.next_stream_id rounds ≡ s.next_stream_id + rounds =
                mod-eq_of_lt (ground arith) in
              returns (rw (e, add_sub s.next_stream_id rounds) (created-Evolves rounds s b))

  pub open_stream-Evolves :
      (n ne : ℤ) (i : ℕ) (epoch : ℤ) (s : MetadataState)
      → OnOk (λ t _. Evolves s t) (open_stream n ne i epoch s)
  unfolding open_stream
  open_stream-Evolves n ne i epoch s = attempt_cases (node_epoch_check s n ne) s λ _ _.
      attempt_cases (require_stream s i) s λ row e.
        if_cases (ltb_ℤ epoch row.epoch) (λ _. fails)
          λ f.
            if_cases (eqb_ℤ row.epoch epoch)
              (λ _.
                if_cases (is_opened row.state && eqb_ℤ row.node_id n)
                  (λ _. returns (Evolves-refl s)) (λ _. fails))
              λ g.
                if_cases (is_opened row.state) (λ _. fails)
                  λ c. returns (
                    Evolves-write s _ i (record row { epoch = epoch; state = opened; node_id = n })
                      (omega arith) refl refl
                      (ground (
                        arith,
                        require_stream_lem s i row e,
                        ltb_ℤ_iff epoch row.epoch,
                        ltb_ℤ_iff row.epoch epoch,
                        eqb_ℤ_iff row.epoch epoch,
                        eq_of_parts row.epoch epoch,
                      )))

  pub trim_stream-Evolves :
      (n ne : ℤ) (i : ℕ) (epoch : ℤ) (o : ℕ) (s : MetadataState)
      → OnOk (λ t _. Evolves s t) (trim_stream n ne i epoch o s)
  unfolding trim_stream
  trim_stream-Evolves n ne i epoch o s = attempt_cases (node_epoch_check s n ne) s λ _ _.
      attempt_cases (require_opened_stream s i epoch) s λ row e.
        if_cases (ltb o row.start_offset) (λ _. fails)
          λ f.
            if_cases (ltb row.end_offset o) (λ _. fails)
              λ _. returns (
                Evolves-write s _ i (record row { start_offset = o }) (omega arith) refl refl
                  (ground (
                    arith,
                    (require_opened_stream_lem s i epoch row e).0,
                    ltb_ℤ_iff row.epoch row.epoch,
                    eqb_ℤ_iff row.node_id row.node_id,
                  )))

  pub close_stream-Evolves :
      (n ne : ℤ) (i : ℕ) (epoch : ℤ) (s : MetadataState)
      → OnOk (λ t _. Evolves s t) (close_stream n ne i epoch s)
  unfolding close_stream
  close_stream-Evolves n ne i epoch s = attempt_cases (node_epoch_check s n ne) s λ _ _.
      attempt_cases (require_stream s i) s λ row e.
        if_cases (not (is_opened row.state) && eqb_ℤ row.epoch epoch)
          (λ _. returns (Evolves-refl s))
          λ _.
            if_cases (not (is_opened row.state)) (λ _. fails)
              λ o.
                if_cases (not (eqb_ℤ row.epoch epoch)) (λ _. fails)
                  λ _. returns (
                    Evolves-write s _ i (record row { state = closed }) (omega arith) refl refl
                      (ground (arith, require_stream_lem s i row e, ltb_ℤ_iff row.epoch row.epoch)))

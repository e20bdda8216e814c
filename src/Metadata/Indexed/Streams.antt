-- ===== src/Metadata/Indexed/Streams.antt =====
-- Creating, opening, trimming and closing streams keep the indexes right.
use native.Mathlib.Nat.{mod-eq_of_lt}
use streamstack.Prelude.{
  ℕ, zero, suc, ◌+◌, ◌-◌, ◌<◌, ℤ, eqb_ℤ, ltb_ℤ, eqb_ℤ_iff, eq_of_parts, ltb_ℤ_iff, add_u64, u64_mod,
  ◌≡◌, true, false, not, ◌&&◌, some, arith, if◌then◌else◌, ==_iff, ltb, leb, ◌==◌,
}
use streamstack.OrdMap.{OrdMap}
use streamstack.OrdMap.Keys.{u64_key, i32_key, pair_key}
use streamstack.Metadata.Types.{StreamRow, opened, closed, ok}
use streamstack.Metadata.State.{
  MetadataState, OnOk, returns, fails, attempt_cases, if_cases, is_opened,
}
use streamstack.Metadata.Nodes.{node_epoch_check}
use streamstack.Metadata.Streams.{
  require_stream, require_opened_stream, create_stream, create_streams, insert_new_rows,
  open_stream, trim_stream, close_stream, no_epoch, no_node, new_row, max_create_streams,
}
use streamstack.Metadata.Indexed.{IsIndexed}

module _ ⦃im : OrdMap⦄ where
  open im use {Map, get, insert, remove, get-insert, get-remove}

  pub require_stream_lem :
      (s : MetadataState) (i : ℕ) (row : StreamRow)
      → require_stream s i ≡ ok row
      → get s.streams i ≡ some row
  unfolding require_stream
  require_stream_lem s i row h = ground arith

  pub require_opened_stream_lem :
      (s : MetadataState) (i : ℕ) (epoch : ℤ) (row : StreamRow)
      → require_opened_stream s i epoch ≡ ok row
      → (get s.streams i ≡ some row) × (is_opened row.state ≡ true) × (row.epoch ≡ epoch)
  unfolding require_opened_stream require_stream
  require_opened_stream_lem s i epoch row h = ground (arith, eqb_ℤ_iff row.epoch epoch)

  pub add_sub : (a b : ℕ) → a + b - a ≡ b
  add_sub a b = omega arith

  -- A table with `n` new rows from `first` on.
  pub get-insert_new_rows :
      (n first : ℕ) (m : Map ℕ StreamRow) (i : ℕ)
      → get (insert_new_rows n first m) i
        ≡ (if leb first i && ltb i (first + n) then some (new_row i) else get m i)
  unfolding insert_new_rows
  get-insert_new_rows zero first m i = ground arith
  get-insert_new_rows (suc n) first m i = ground (
    arith,
    get-insert_new_rows n (suc first) (insert m first (new_row first)) i,
    get-insert m first i (new_row first),
    ==_iff first i,
  )

  -- The state after `n` creations.
  abbrev created : ℕ → MetadataState → MetadataState
  created n s = record s {
    streams = insert_new_rows n s.next_stream_id s.streams;
    next_stream_id = s.next_stream_id + n;
  }

  created-IsIndexed : (n : ℕ) (s : MetadataState) → IsIndexed s → IsIndexed (created n s)
  created-IsIndexed n s v = record {
    opening = λ m i. simp get-insert_new_rows (ground (arith, v.opening m i, v.fresh i));
    placed = λ m i.
        simp get-insert_new_rows
          (ground (arith, v.placed m i, v.fresh i, eqb_ℤ_iff no_node no_node));
    epochs =
        λ i. simp get-insert_new_rows (ground (arith, v.epochs i, ltb_ℤ_iff no_epoch no_epoch));
    pending = λ i. simp get-insert_new_rows (ground (arith, v.pending i, v.fresh i));
    fresh = λ i h. simp get-insert_new_rows (ground (arith, v.fresh i));
    nodes = v.nodes;
  }

  pub create_stream-IsIndexed :
      (n ne : ℤ) (s : MetadataState)
      → s.next_stream_id + 1 < u64_mod
      → IsIndexed s
      → OnOk (λ t _. IsIndexed t) (create_stream n ne s)
  unfolding create_stream insert_new_rows
  create_stream-IsIndexed n ne s room v =
      attempt_cases (node_epoch_check s n ne) s
        λ _ _. returns (rw (mod-eq_of_lt room) (created-IsIndexed 1 s v))

  pub create_streams-IsIndexed :
      (n ne : ℤ) (rounds : ℕ) (s : MetadataState)
      → s.next_stream_id + max_create_streams < u64_mod
      → IsIndexed s
      → OnOk (λ t _. IsIndexed t) (create_streams n ne rounds s)
  unfolding create_streams
  create_streams-IsIndexed n ne rounds s room v = attempt_cases (node_epoch_check s n ne) s λ _ _.
      if_cases (rounds == 0) (λ _. fails)
        λ _.
          if_cases (ltb max_create_streams rounds) (λ _. fails)
            λ few.
              let e : add_u64 s.next_stream_id rounds ≡ s.next_stream_id + rounds =
                mod-eq_of_lt (ground arith) in
              returns (rw (e, add_sub s.next_stream_id rounds) (created-IsIndexed rounds s v))

  -- The state that a successful opening leaves.
  abbrev opened_state : ℤ → ℕ → ℤ → StreamRow → MetadataState → MetadataState
  opened_state node_id stream_id epoch row s = record s {
    streams =
        insert s.streams stream_id
          (record row { epoch = epoch; state = opened; node_id = node_id });
    placed_by_node = remove s.placed_by_node (row.node_id, stream_id);
    opening_by_node = insert s.opening_by_node (node_id, stream_id) tt;
  }

  opened_state-IsIndexed :
      (node_id : ℤ) (i : ℕ) (epoch : ℤ) (row : StreamRow) (s : MetadataState)
      → IsIndexed s
      → get s.streams i ≡ some row
      → is_opened row.state ≡ false
      → ltb_ℤ epoch row.epoch ≡ false
      → eqb_ℤ row.epoch epoch ≡ false
      → IsIndexed (opened_state node_id i epoch row s)
  opened_state-IsIndexed node_id i epoch row s v e c f g = record {
    opening = λ n j.
        simp (get-insert, get-remove)
          (ground (arith, e, v.opening n j, v.opening n i, eqb_ℤ_iff node_id n, ==_iff i j));
    placed = λ n j.
        simp (get-insert, get-remove)
          (ground (arith, e, v.placed n j, v.placed n i, eqb_ℤ_iff row.node_id n, ==_iff i j));
    epochs = λ j. simp get-insert (
        ground (
          arith,
          v.epochs j,
          v.epochs i,
          e,
          ltb_ℤ_iff epoch row.epoch,
          eqb_ℤ_iff row.epoch epoch,
          ltb_ℤ_iff epoch no_epoch,
          ltb_ℤ_iff row.epoch no_epoch,
          eqb_ℤ_iff epoch no_epoch,
          eq_of_parts row.epoch epoch,
        ));
    pending = λ j. simp get-insert (
        ground (
          arith,
          v.pending j,
          v.epochs i,
          e,
          ltb_ℤ_iff epoch row.epoch,
          eqb_ℤ_iff row.epoch epoch,
          ltb_ℤ_iff row.epoch no_epoch,
          eqb_ℤ_iff epoch no_epoch,
          eq_of_parts row.epoch epoch,
        ));
    fresh = λ j h. simp get-insert (ground (arith, v.fresh j h, v.fresh i, ==_iff i j));
    nodes = v.nodes;
  }

  pub open_stream-IsIndexed :
      (n ne : ℤ) (i : ℕ) (epoch : ℤ) (s : MetadataState)
      → IsIndexed s
      → OnOk (λ t _. IsIndexed t) (open_stream n ne i epoch s)
  unfolding open_stream
  open_stream-IsIndexed n ne i epoch s v = attempt_cases (node_epoch_check s n ne) s λ _ _.
      attempt_cases (require_stream s i) s λ row e.
        if_cases (ltb_ℤ epoch row.epoch) (λ _. fails)
          λ f.
            if_cases (eqb_ℤ row.epoch epoch)
              (λ _.
                if_cases (is_opened row.state && eqb_ℤ row.node_id n) (λ _. returns v) (λ _. fails))
              λ g.
                if_cases (is_opened row.state) (λ _. fails)
                  λ c.
                    returns (
                      opened_state-IsIndexed n i epoch row s v (require_stream_lem s i row e) c f g)

  -- A row that changes in its offsets alone.
  pub offsets-IsIndexed :
      (i : ℕ) (row : StreamRow) (start end : ℕ) (s : MetadataState)
      → get s.streams i ≡ some row
      → IsIndexed s
      → IsIndexed (record s {
        streams = insert s.streams i (record row { start_offset = start; end_offset = end });
      })
  offsets-IsIndexed i row start end s e v = record {
    opening = λ n j. simp get-insert (ground (arith, e, v.opening n j, ==_iff i j));
    placed = λ n j. simp get-insert (ground (arith, e, v.placed n j, ==_iff i j));
    epochs = λ j. simp get-insert (ground (arith, e, v.epochs j, ==_iff i j));
    pending = λ j. simp get-insert (ground (arith, e, v.pending j, ==_iff i j));
    fresh = λ j h. simp get-insert (ground (arith, e, v.fresh j h, ==_iff i j));
    nodes = v.nodes;
  }

  pub trim_stream-IsIndexed :
      (n ne : ℤ) (i : ℕ) (epoch : ℤ) (o : ℕ) (s : MetadataState)
      → IsIndexed s
      → OnOk (λ t _. IsIndexed t) (trim_stream n ne i epoch o s)
  unfolding trim_stream
  trim_stream-IsIndexed n ne i epoch o s v = attempt_cases (node_epoch_check s n ne) s λ _ _.
      attempt_cases (require_opened_stream s i epoch) s λ row e.
        if_cases (ltb o row.start_offset) (λ _. fails)
          λ _.
            if_cases (ltb row.end_offset o) (λ _. fails)
              λ _. returns (
                offsets-IsIndexed i row o row.end_offset s
                  (require_opened_stream_lem s i epoch row e).0 v)

  abbrev closed_state : ℕ → StreamRow → MetadataState → MetadataState
  closed_state i row s = record s {
    streams = insert s.streams i (record row { state = closed });
    opening_by_node = remove s.opening_by_node (row.node_id, i);
  }

  closed_state-IsIndexed :
      (i : ℕ) (row : StreamRow) (s : MetadataState)
      → get s.streams i ≡ some row
      → is_opened row.state ≡ true
      → IsIndexed s
      → IsIndexed (closed_state i row s)
  closed_state-IsIndexed i row s e o v = record {
    opening = λ n j.
        simp (get-insert, get-remove)
          (ground (arith, e, v.opening n j, eqb_ℤ_iff row.node_id n, ==_iff i j));
    placed = λ n j. simp get-insert (ground (arith, e, v.placed n j, v.epochs i, ==_iff i j));
    epochs = λ j. simp get-insert (ground (arith, e, v.epochs j, v.epochs i));
    pending = λ j. simp get-insert (ground (arith, e, v.pending j, ==_iff i j));
    fresh = λ j h. simp get-insert (ground (arith, e, v.fresh j h, ==_iff i j));
    nodes = v.nodes;
  }

  pub close_stream-IsIndexed :
      (n ne : ℤ) (i : ℕ) (epoch : ℤ) (s : MetadataState)
      → IsIndexed s
      → OnOk (λ t _. IsIndexed t) (close_stream n ne i epoch s)
  unfolding close_stream
  close_stream-IsIndexed n ne i epoch s v = attempt_cases (node_epoch_check s n ne) s λ _ _.
      attempt_cases (require_stream s i) s λ row e.
        if_cases (not (is_opened row.state) && eqb_ℤ row.epoch epoch) (λ _. returns v)
          λ _.
            if_cases (not (is_opened row.state)) (λ _. fails)
              λ o.
                if_cases (not (eqb_ℤ row.epoch epoch)) (λ _. fails)
                  λ _.
                    returns (
                      closed_state-IsIndexed i row s (require_stream_lem s i row e) (ground arith)
                        v)

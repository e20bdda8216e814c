-- ===== src/Metadata/Indexed/Transfers.antt =====
-- Transfers keep the indexes right.
use streamstack.Prelude.{
  ℕ, ℤ, eqb_ℤ, ◌≡◌, true, false, not, ◌&&◌, ◌||◌, some, arith, ==_iff, Option-cases, inl, inr,
}
use streamstack.OrdMap.{OrdMap}
use streamstack.OrdMap.Keys.{u64_key, i32_key, pair_key, triple_key}
use streamstack.Metadata.State.{
  MetadataState, OnOk, returns, fails, attempt_cases, if_cases, is_opened,
}
use streamstack.Metadata.Types.{StreamRow, PendingTransfer}
use streamstack.Metadata.Streams.{require_stream}
use streamstack.Metadata.Transfers.{transfer_stream, complete_transfer, has_slots}
use streamstack.Metadata.Indexed.{IsIndexed}
use streamstack.Metadata.Indexed.Streams.{require_stream_lem}

module _ ⦃im : OrdMap⦄ where
  open im use {
    Map, get, insert, remove, iter, range, range_to, get-insert, get-remove, get-iter, range-iter,
  }

  transferring-IsIndexed :
      (i : ℕ) (t : PendingTransfer) (row : StreamRow) (s : MetadataState)
      → get s.streams i ≡ some row
      → is_opened row.state ≡ true
      → IsIndexed s
      → IsIndexed (record s { pending_transfers = insert s.pending_transfers i t })
  transferring-IsIndexed i t row s e o v = record {
    opening = v.opening;
    placed = v.placed;
    epochs = v.epochs;
    pending = λ j. simp get-insert (ground (arith, e, v.pending j, v.epochs i, ==_iff i j));
    fresh = v.fresh;
    nodes = v.nodes;
  }

  pub transfer_stream-IsIndexed :
      (i : ℕ) (from to : ℤ) (s : MetadataState)
      → IsIndexed s
      → OnOk (λ t _. IsIndexed t) (transfer_stream i from to s)
  unfolding transfer_stream
  transfer_stream-IsIndexed i from to s v = attempt_cases (require_stream s i) s λ row e.
      elim (Option-cases (get s.pending_transfers i)) [
        | inr (p, q) ↦
            rw q (
              if_cases (eqb_ℤ p.from_node from && eqb_ℤ p.to_node to) (λ _. returns v) (λ _. fails))
        | inl q ↦ rw q (
            if_cases (eqb_ℤ from to) (λ _. fails)
              λ _.
                if_cases (not (has_slots (get s.nodes to))) (λ _. fails)
                  λ _.
                    if_cases (not (is_opened row.state) || not (eqb_ℤ row.node_id from))
                      (λ _. fails)
                      λ o. returns (
                        transferring-IsIndexed i _ row s (require_stream_lem s i row e)
                          (ground arith) v))
      ]

  abbrev transferred : ℕ → PendingTransfer → StreamRow → MetadataState → MetadataState
  transferred i p row s = record s {
    streams = insert s.streams i (record row { node_id = p.to_node });
    pending_transfers = remove s.pending_transfers i;
  }

  transferred-IsIndexed :
      (i : ℕ) (p : PendingTransfer) (row : StreamRow) (s : MetadataState)
      → get s.streams i ≡ some row
      → get s.pending_transfers i ≡ some p
      → is_opened row.state ≡ false
      → IsIndexed s
      → IsIndexed (transferred i p row s)
  transferred-IsIndexed i p row s e q o v = record {
    opening = λ n j. simp get-insert (ground (arith, e, v.opening n j, ==_iff i j));
    placed = λ n j. simp get-insert (ground (arith, e, q, v.placed n j, v.pending i, ==_iff i j));
    epochs = λ j. simp get-insert (ground (arith, e, v.epochs j, ==_iff i j));
    pending = λ j. simp (get-insert, get-remove) (ground (arith, e, v.pending j, ==_iff i j));
    fresh = λ j h. simp get-insert (ground (arith, e, v.fresh j h, ==_iff i j));
    nodes = v.nodes;
  }

  pub complete_transfer-IsIndexed :
      (i : ℕ) (epoch : ℤ) (s : MetadataState)
      → IsIndexed s
      → OnOk (λ t _. IsIndexed t) (complete_transfer i epoch s)
  unfolding complete_transfer
  complete_transfer-IsIndexed i epoch s v = elim (Option-cases (get s.pending_transfers i)) [
    | inl q ↦ rw (q, complete_transfer) fails
    | inr (p, q) ↦
        rw (q, complete_transfer)
          (attempt_cases (require_stream s i) s λ row e.
            if_cases (is_opened row.state) (λ _. fails)
              λ o.
                if_cases (not (eqb_ℤ row.epoch epoch)) (λ _. fails)
                  λ _.
                    returns (transferred-IsIndexed i p row s (require_stream_lem s i row e) q o v))
  ]

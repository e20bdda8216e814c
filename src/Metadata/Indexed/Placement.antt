-- ===== src/Metadata/Indexed/Placement.antt =====
-- Placing a stream, and registering a node, keep the indexes right.
use streamstack.Prelude.{
  ℕ, ℤ, eqb_ℤ, eqb_ℤ_iff, ◌≡◌, ◌≢◌, Bool, true, false, not, ◌||◌, Option, none, some, List, [], ◌∷◌,
  arith, refl, sym, ◌∙◌, ==_iff, Option-cases, inl, inr,
}
use streamstack.OrdMap.{OrdMap, lookup}
use streamstack.OrdMap.Keys.{u64_key, i32_key, pair_key, triple_key}
use streamstack.Metadata.State.{
  MetadataState, OnOk, returns, fails, attempt_cases, if_cases, is_opened,
}
use streamstack.Metadata.Nodes.{register_node, is_newer}
use streamstack.Metadata.Types.{StreamRow, NodeRow, Bytes}
use streamstack.Metadata.Streams.{require_stream, no_node, no_epoch}
use streamstack.Metadata.Placement.{consider, find_winner, assign, place_stream}
use streamstack.Metadata.Indexed.{IsIndexed}
use streamstack.Metadata.Indexed.Streams.{require_stream_lem}

module _ ⦃im : OrdMap⦄ where
  open im use {
    Map, get, insert, remove, iter, range, range_to, get-insert, get-remove, get-iter, range-iter,
  }

  -- Whether a candidate is a node and not the sentinel.
  abbrev is_node : Option (ℤ × ℕ) → Bool
  is_node none = true
  is_node (some (n, score)) = not (eqb_ℤ n no_node)

  consider-is_node :
      (s : MetadataState) (w : Option (ℤ × ℕ)) (n : ℤ) (node : NodeRow)
      → is_node w ≡ true
      → eqb_ℤ n no_node ≡ false
      → is_node (consider s w n node) ≡ true
  unfolding consider
  consider-is_node s none n node h e = ground arith
  consider-is_node s (some (best, score)) n node h e = ground arith

  find_winner-is_node :
      (s : MetadataState) (w : Option (ℤ × ℕ)) (nodes : List (ℤ × NodeRow))
      → is_node w ≡ true
      → lookup nodes no_node ≡ none
      → is_node (find_winner s w nodes) ≡ true
  unfolding find_winner
  find_winner-is_node s w [] h e = h
  find_winner-is_node s w ((n, node) ∷ nodes) h e =
      find_winner-is_node s (consider s w n node) nodes
        (consider-is_node s w n node h (ground arith)) (ground arith)

  assign-IsIndexed :
      (s : MetadataState) (i : ℕ) (row : StreamRow) (winner : ℤ)
      → get s.streams i ≡ some row
      → is_opened row.state ≡ false
      → eqb_ℤ row.epoch no_epoch ≡ true
      → eqb_ℤ row.node_id no_node ≡ true
      → eqb_ℤ winner no_node ≡ false
      → IsIndexed s
      → IsIndexed (assign s i row winner)
  unfolding assign
  assign-IsIndexed s i row winner e c f g h v = record {
    opening = λ n j. simp get-insert (ground (arith, e, v.opening n j, ==_iff i j));
    placed =
        λ n j. simp get-insert (ground (arith, e, v.placed n j, eqb_ℤ_iff winner n, ==_iff i j));
    epochs = λ j. simp get-insert (ground (arith, e, v.epochs j, v.epochs i, ==_iff i j));
    pending = λ j. simp get-insert (ground (arith, e, v.pending j, ==_iff i j));
    fresh = λ j k. simp get-insert (ground (arith, e, v.fresh j k, ==_iff i j));
    nodes = v.nodes;
  }

  pub place_stream-IsIndexed :
      (i : ℕ) (s : MetadataState) → IsIndexed s → OnOk (λ t _. IsIndexed t) (place_stream i s)
  unfolding place_stream
  place_stream-IsIndexed i s v = attempt_cases (require_stream s i) s λ row e.
      if_cases (not (eqb_ℤ row.node_id no_node)) (λ _. returns v)
        λ g.
          if_cases (is_opened row.state || not (eqb_ℤ row.epoch no_epoch)) (λ _. fails)
            λ h. elim (Option-cases (find_winner s none (iter s.nodes))) [
              | inl q ↦ rw q fails
              | inr ((winner, sc), q) ↦ rw q (
                  returns (
                    assign-IsIndexed s i row winner (require_stream_lem s i row e) (ground arith)
                      (ground arith) (ground arith)
                      (ground (
                        arith,
                        q,
                        find_winner-is_node s none (iter s.nodes) refl
                            (sym (get-iter s.nodes no_node) ∙ v.nodes),
                      ))
                      v))
            ]

  pub register_node-IsIndexed :
      (n ne : ℤ) (a : Bytes) (w : ℕ) (s : MetadataState)
      → n ≢ no_node
      → IsIndexed s
      → OnOk (λ t _. IsIndexed t) (register_node n ne a w s)
  unfolding register_node
  register_node-IsIndexed n ne a w s h v =
      if_cases (is_newer (get s.nodes n) ne) (λ _. fails)
        λ _. returns (record {
          opening = v.opening;
          placed = v.placed;
          epochs = v.epochs;
          pending = v.pending;
          fresh = v.fresh;
          nodes = simp get-insert (ground (arith, v.nodes, eqb_ℤ_iff n no_node));
        })

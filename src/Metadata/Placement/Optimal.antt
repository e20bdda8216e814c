-- ===== src/Metadata/Placement/Optimal.antt =====
-- The node that a stream is placed on has the least load for its slots.
use streamstack.Prelude.{
  int_as_u64, ℕ, ◌<◌, ◌≤◌, ℤ, eqb_ℤ, ltb_ℤ, eqb_ℤ_iff, ltb_ℤ_iff, ◌≤ℤ◌, ◌≡◌, Bool, true, false, not,
  ◌&&◌, ◌||◌, Option, none, some, List, [], ◌∷◌, arith, sym, ◌∙◌, ltb, ◌==◌, Bool-cases,
  Option-cases, ◌⊎◌, inl, inr,
}
use streamstack.OrdMap.{OrdMap, lookup}
use streamstack.OrdMap.Keys.{u64_key, i32_key, pair_key, triple_key}
use streamstack.Metadata.State.{MetadataState}
use streamstack.OrdMap.{Above, Ascending}
use streamstack.Metadata.Types.{StreamRow, NodeRow, MetadataResult, ok, id}
use streamstack.Metadata.Streams.{require_stream, no_node}
use streamstack.Metadata.Placement.{score, consider, find_winner, assign, place_stream}

-- Whether a candidate is at least as good as node `n` with the score `x`: its score is less, or the
-- same and its id is no greater.
abbrev pub beats : Option (ℤ × ℕ) → ℤ → ℕ → Bool
beats none n x = false
beats (some (b, y)) n x = ltb y x || (y == x && not (ltb_ℤ n b))

abbrev no_winner : Option (ℤ × ℕ) → Bool
no_winner none = true
no_winner (some c) = false

module _ ⦃im : OrdMap⦄ where
  open im use {
    Map, get, insert, remove, iter, range, range_to, get-insert, get-remove, get-iter, range-iter,
    range_to-iter, iter-Ascending,
  }

  consider-beats_old :
      (s : MetadataState) (w : Option (ℤ × ℕ)) (m : ℤ) (node : NodeRow) (n : ℤ) (x : ℕ)
      → beats w n x ≡ true
      → beats (consider s w m node) n x ≡ true
  unfolding consider
  consider-beats_old s none m node n x h = cc
  consider-beats_old s (some (b, y)) m node n x h =
      ground (arith, h, ltb_ℤ_iff n b, ltb_ℤ_iff n m, ltb_ℤ_iff m b)

  consider-beats_new :
      (s : MetadataState) (w : Option (ℤ × ℕ)) (n : ℤ) (node : NodeRow)
      → ltb node.slots 1 ≡ false
      → beats (consider s w n node) n (score s n node) ≡ true
  unfolding consider
  consider-beats_new s none n node h = ground (arith, ltb_ℤ_iff n n)
  consider-beats_new s (some (b, y)) n node h = ground (arith, ltb_ℤ_iff n b, ltb_ℤ_iff n n)

  find_winner-beats_old :
      (s : MetadataState) (nodes : List (ℤ × NodeRow)) (w : Option (ℤ × ℕ)) (n : ℤ) (x : ℕ)
      → beats w n x ≡ true
      → beats (find_winner s w nodes) n x ≡ true
  unfolding find_winner
  find_winner-beats_old s [] w n x h = h
  find_winner-beats_old s ((m, node) ∷ nodes) w n x h =
      find_winner-beats_old s nodes (consider s w m node) n x (consider-beats_old s w m node n x h)

  find_winner-beats :
      (s : MetadataState) (nodes : List (ℤ × NodeRow)) (w : Option (ℤ × ℕ)) (n : ℤ) (node : NodeRow)
      → lookup nodes n ≡ some node
      → ltb node.slots 1 ≡ false
      → beats (find_winner s w nodes) n (score s n node) ≡ true
  unfolding find_winner
  find_winner-beats s [] w n node e h = cc
  find_winner-beats s ((m, other) ∷ nodes) w n node e h = elim (Bool-cases (eqb_ℤ m n)) [
    | inl p ↦
        let same : m ≡ n = (eqb_ℤ_iff m n).0 p in
        let row : other ≡ node = ground (arith, e, p) in
        find_winner-beats_old s nodes (consider s w m other) n (score s n node)
          (rw (same, row) (consider-beats_new s w n node h))
    | inr p ↦ find_winner-beats s nodes (consider s w m other) n node (ground (arith, e, p)) h
  ]

  -- A candidate is a node of the list with a slot, and carries its score.
  abbrev Candidate : MetadataState → List (ℤ × NodeRow) → ℤ → ℕ → Type 0
  Candidate s nodes b y =
      (node : NodeRow) × (lookup nodes b ≡ some node)
      × (ltb node.slots 1 ≡ false)
      × (score s b node ≡ y)

  lookup-Above :
      (n b : ℤ) (other node : NodeRow) (nodes : List (ℤ × NodeRow))
      → Above n nodes
      → lookup nodes b ≡ some node
      → lookup ((n, other) ∷ nodes) b ≡ some node
  lookup-Above n b other node [] a e = cc
  lookup-Above n b other node ((m, x) ∷ nodes) a e = elim (Bool-cases (eqb_ℤ m b)) [
    | inl p ↦ ground (arith, e, p, a.0, eqb_ℤ_iff n b, eqb_ℤ_iff m b, ltb_ℤ_iff n m)
    | inr p ↦ ground (arith, e, p, lookup-Above n b other node nodes a.1)
  ]

  consider_cases :
      (s : MetadataState) (w : Option (ℤ × ℕ)) (n : ℤ) (node : NodeRow)
      → (consider s w n node ≡ w)
        ⊎ ((ltb node.slots 1 ≡ false) × (consider s w n node ≡ some (n, score s n node)))
  unfolding consider
  consider_cases s none n node = ground arith
  consider_cases s (some (b, y)) n node = ground arith

  find_winner-Candidate :
      (s : MetadataState) (nodes : List (ℤ × NodeRow)) (w : Option (ℤ × ℕ)) (b : ℤ) (y : ℕ)
      → Ascending nodes
      → find_winner s w nodes ≡ some (b, y)
      → (w ≡ some (b, y)) ⊎ Candidate s nodes b y
  unfolding find_winner
  find_winner-Candidate s [] w b y a e = inl e
  find_winner-Candidate s ((n, node) ∷ nodes) w b y a e =
      elim (find_winner-Candidate s nodes (consider s w n node) b y a.1 e) [
        | inr (m, q, h, z) ↦ inr (m, lookup-Above n b node m nodes a.0 q, h, z)
        | inl p ↦ elim (consider_cases s w n node) [
          | inl same ↦ inl (sym same ∙ p)
          | inr (h, new) ↦
              inr (node, ground (arith, p, new, eqb_ℤ_iff n b), h, ground (arith, p, new))
        ]
      ]

  -- `node` is registered under `b` with a slot, and every other such node has a greater score, or
  -- the same score and a greater id.
  pub record IsBest (s : MetadataState) (b : ℤ) (node : NodeRow) : Type 0 where
    pub registered : get s.nodes b ≡ some node
    pub has_slot : 1 ≤ node.slots
    pub least :
        (n : ℤ) (other : NodeRow)
        → get s.nodes n ≡ some other
        → 1 ≤ other.slots
        → (score s b node < score s n other) ⊎ ((score s b node ≡ score s n other) × (b ≤ℤ n))

  winner-IsBest :
      (s : MetadataState) (b : ℤ) (y : ℕ) (node : NodeRow)
      → find_winner s none (iter s.nodes) ≡ some (b, y)
      → lookup (iter s.nodes) b ≡ some node
      → ltb node.slots 1 ≡ false
      → score s b node ≡ y
      → IsBest s b node
  winner-IsBest s b y node found q h z = record {
    registered = get-iter s.nodes b ∙ q;
    has_slot = ground (arith, h);
    least = λ n other r l. ground (
      arith,
      found,
      z,
      ltb_ℤ_iff n b,
      find_winner-beats s (iter s.nodes) none n other (sym (get-iter s.nodes n) ∙ r)
          (ground (arith, l)),
    );
  }

  -- Placing a stream that has no node succeeds only by giving it to the registered node of
  -- least score with a slot, of several such the one of least id, and changes its row and `placed_by_node` alone.
  pub place_stream_optimal :
      (i : ℕ) (s t : MetadataState) (row : StreamRow) (result : MetadataResult)
      → get s.streams i ≡ some row
      → row.node_id ≡ no_node
      → place_stream i s ≡ (ok result, t)
      → (b : ℤ) × (node : NodeRow) × IsBest s b node
        × (t ≡ assign s i row b)
        × (result ≡ id (int_as_u64 b))
  unfolding place_stream require_stream
  place_stream_optimal i s t row result q u e =
      elim (Option-cases (find_winner s none (iter s.nodes))) [
        | inl none_found ↦
            absurd (ground (arith, q, u, e, none_found, eqb_ℤ_iff row.node_id no_node))
        | inr ((b, y), found) ↦
            elim (find_winner-Candidate s (iter s.nodes) none b y (iter-Ascending s.nodes) found) [
              | inl z ↦ absurd (ground (arith, z))
              | inr (node, p, h, z) ↦ (
                b,
                node,
                winner-IsBest s b y node found p h z,
                ground (arith, q, u, e, found, eqb_ℤ_iff row.node_id no_node),
                ground (arith, q, u, e, found, eqb_ℤ_iff row.node_id no_node),
              )
            ]
      ]

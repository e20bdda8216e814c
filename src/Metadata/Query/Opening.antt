-- ===== src/Metadata/Query/Opening.antt =====
-- `get_opening_streams` answers from the index what the rows say.
use streamstack.Prelude.{
  ℕ, ◌≤◌, ℤ, eqb_ℤ, eq_of_parts, eqb_ℤ_iff, ltb_ℤ_iff, ◌≡◌, refl, sym, ap, ◌∙◌, Bool, true, ◌&&◌,
  Option, none, some, List, [], ◌∷◌, arith, ◌==◌, Bool-cases, Option-cases, inl, inr, ◌⊎◌, u64_max,
}
use streamstack.OrdMap.{OrdMap, keep, lookup, within}
use streamstack.OrdMap.Keys.{u64_key, i32_key, pair_key}
use streamstack.Metadata.Types.{StreamRow, StreamMetadata}
use streamstack.Metadata.State.{MetadataState, is_opened}
use streamstack.Metadata.Streams.{to_stream_metadata}
use streamstack.Metadata.Indexed.{IsIndexed, opened_on}
use streamstack.Metadata.Query.{get_stream, get_opening_streams, filter_map, map_option}

abbrev pub Listed : {A : Type 0} → A → List A → Type 0
Listed x [] = ⊥
Listed x (y ∷ l) = (y ≡ x) ⊎ Listed x l

abbrev Entries : Type 0
Entries = List ((ℤ × ℕ) × Unit {0})

-- The entries of one node, and the streams they name.
abbrev of_node : ℤ → Entries → Entries
of_node n = keep (λ e. within {K = ℤ × ℕ} (n, 0) (n, u64_max) e.0)

abbrev named : (ℕ → Option StreamMetadata) → Entries → List StreamMetadata
named f = filter_map (λ e. f e.0.1)

abbrev in_node : ℤ → ℤ × ℕ → Bool
in_node n k = within {K = ℤ × ℕ} (n, 0) (n, u64_max) k

within_node : (n m : ℤ) (i : ℕ) → in_node n (m, i) ≡ true → m ≡ n
within_node n m i h =
    ground (arith, h, ltb_ℤ_iff m n, ltb_ℤ_iff n m, eqb_ℤ_iff m n, eqb_ℤ_iff n m, eq_of_parts m n)

node_within : (n : ℤ) (i : ℕ) → i ≤ u64_max → in_node n (n, i) ≡ true
node_within n i h = ground (arith, ltb_ℤ_iff n n, eqb_ℤ_iff n n)

module _ (f : ℕ → Option StreamMetadata) (n : ℤ) (x : StreamMetadata) where
  -- The streams that the head of the entries adds.
  head_adds :
      (k : ℤ × ℕ) (u : Unit {0}) (l : Entries)
      → in_node n k ≡ true
      → f k.1 ≡ some x
      → Listed x (named f (of_node n ((k, u) ∷ l)))
  head_adds k u l h q = rw h (rw q (inl refl))

  tail_stays :
      (k : ℤ × ℕ) (u : Unit {0}) (l : Entries)
      → Listed x (named f (of_node n l))
      → Listed x (named f (of_node n ((k, u) ∷ l)))
  tail_stays k u l t = elim (Bool-cases (in_node n k)) [
    | inr h ↦ rw h t
    | inl h ↦ elim (Option-cases (f k.1)) [
      | inl q ↦ rw h (rw q t)
      | inr (y, q) ↦ rw h (rw q (inr t))
    ]
  ]

  head_or_tail :
      (k : ℤ × ℕ) (u : Unit {0}) (l : Entries)
      → Listed x (named f (of_node n ((k, u) ∷ l)))
      → ((in_node n k ≡ true) × (f k.1 ≡ some x)) ⊎ Listed x (named f (of_node n l))
  head_or_tail k u l t = elim (Bool-cases (in_node n k)) [
    | inr h ↦ inr (rw h at t)
    | inl h ↦ elim (Option-cases (f k.1)) [
      | inl q ↦ inr (rw (h, q) at t)
      | inr (y, q) ↦ same_or_tail h q (rw (h, q) at t)
    ]
  ]
    where
      same_or_tail :
          {y : StreamMetadata}
          → in_node n k ≡ true
          → f k.1 ≡ some y
          → (y ≡ x) ⊎ Listed x (named f (of_node n l))
          → ((in_node n k ≡ true) × (f k.1 ≡ some x)) ⊎ Listed x (named f (of_node n l))
      same_or_tail h q (inl e) = inl (h, q ∙ ap some e)
      same_or_tail h q (inr t) = inr t

  named_complete :
      (i : ℕ) (l : Entries)
      → i ≤ u64_max
      → f i ≡ some x
      → lookup l (n, i) ≡ some tt
      → Listed x (named f (of_node n l))
  named_complete i [] b q h = absurd (ground (arith, h))
  named_complete i (((m, j), u) ∷ l) b q h = elim (Bool-cases (eqb_ℤ m n && (j == i))) [
    | inl e ↦
        head_adds (m, j) u l (ground (arith, e, eqb_ℤ_iff m n, node_within n i b))
          (ground (arith, e, q))
    | inr e ↦ tail_stays (m, j) u l (named_complete i l b q (ground (arith, e, h)))
  ]

  named_sound :
      (l : Entries)
      → Listed x (named f (of_node n l))
      → (i : ℕ) × (lookup l (n, i) ≡ some tt) × (f i ≡ some x)
  named_sound [] h = absurd h
  named_sound (((m, j), u) ∷ l) h = elim (head_or_tail (m, j) u l h) [
    | inl (w, q) ↦ (j, ground (arith, within_node n m j w, eqb_ℤ_iff m n), q)
    | inr t ↦ let (i, r, q) = named_sound l t in (i, ground (arith, r), q)
  ]

module _ ⦃im : OrdMap⦄ where
  open im use {get, iter, range, get-iter, range-iter}

  opening_streams-named :
      (s : MetadataState) (n : ℤ)
      → get_opening_streams s n ≡ named (get_stream s) (of_node n (iter s.opening_by_node))
  unfolding get_opening_streams
  opening_streams-named s n =
      ap (filter_map (λ e. get_stream s e.0.1)) (range-iter s.opening_by_node (n, 0) (n, u64_max))

  -- In a state whose indexes accord with its rows, every stream with a u64 id that is open on a node is among the
  -- answers of `get_opening_streams` for that node.
  pub get_opening_streams_complete :
      (s : MetadataState) (n : ℤ) (i : ℕ) (row : StreamRow)
      → IsIndexed s
      → i ≤ u64_max
      → get s.streams i ≡ some row
      → is_opened row.state ≡ true
      → row.node_id ≡ n
      → Listed (to_stream_metadata row) (get_opening_streams s n)
  unfolding get_stream
  get_opening_streams_complete s n i row v b q o e =
      let entry : opened_on n (some row) ≡ some tt =
        ground (arith, o, e, eqb_ℤ_iff row.node_id n) in
      rw (opening_streams-named s n) (
        named_complete (get_stream s) n (to_stream_metadata row) i (iter s.opening_by_node) b
          (ap (map_option to_stream_metadata) q)
          (sym (get-iter s.opening_by_node (n, i))
            ∙ (v.opening n i ∙ (ap (opened_on n) q ∙ entry))))

  opened_row :
      (n : ℤ) (o : Option StreamRow) (x : StreamMetadata)
      → opened_on n o ≡ some tt
      → map_option to_stream_metadata o ≡ some x
      → (row : StreamRow) × (o ≡ some row)
        × (is_opened row.state ≡ true)
        × (row.node_id ≡ n)
        × (to_stream_metadata row ≡ x)
  opened_row n none x h q = absurd (ground (arith, h))
  opened_row n (some row) x h q =
      (row, refl, ground (arith, h), ground (arith, h, eqb_ℤ_iff row.node_id n), cc)

  -- In a state whose indexes accord with its rows, each answer of `get_opening_streams` for a
  -- node is the row of a stream that exists and is open on that node.
  pub get_opening_streams_sound :
      (s : MetadataState) (n : ℤ) (x : StreamMetadata)
      → IsIndexed s
      → Listed x (get_opening_streams s n)
      → (i : ℕ) × (row : StreamRow) × (get s.streams i ≡ some row)
        × (is_opened row.state ≡ true)
        × (row.node_id ≡ n)
        × (to_stream_metadata row ≡ x)
  unfolding get_stream
  get_opening_streams_sound s n x v l =
      let (i, r, q) =
        named_sound (get_stream s) n x (iter s.opening_by_node)
          (rw (opening_streams-named s n) at l) in
      let (row, z, o, e, m) =
        opened_row n (get s.streams i) x
          (sym (v.opening n i) ∙ (get-iter s.opening_by_node (n, i) ∙ r)) q in
      (i, row, z, o, e, m)

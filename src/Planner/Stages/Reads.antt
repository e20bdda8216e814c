-- ===== src/Planner/Stages/Reads.antt =====
-- What a stage reads is what it writes, by object and in the order of the positions.
use streamstack.Prelude.{
  ℕ, ◌≤◌, ◌≡◌, refl, arith, Bool-cases, inl, inr, Option, List, [], ◌∷◌, ◌++◌, ltb, ◌==◌,
}
use streamstack.Planner.Block.{StreamDataBlock, block_start_position, CompactedObject}
use streamstack.Planner.Builder.{CompactedObjectBuilder}
use streamstack.Planner.Entries.{
  Entries, push_at, push_all, insert_by, sort_by, sort_entries, values, weigh, weigh-append,
  push_all-weigh, sort_entries-weigh,
}
use streamstack.Planner.Stages.{object_blocks, with_builder, generate_plan}
use streamstack.Planner.Stages.Weights.{weigh_objects}

object_blocks-weigh :
    (w : StreamDataBlock → ℕ) (objects : List CompactedObject)
    → weigh w (object_blocks objects) ≡ weigh_objects w objects
object_blocks-weigh w [] = refl
object_blocks-weigh w (o ∷ objects) =
    omega (arith, weigh-append w o.blocks (object_blocks objects), object_blocks-weigh w objects)

-- Blocks of one object, in the order of their keys.
abbrev pub InOrder : (StreamDataBlock → ℕ) → List StreamDataBlock → Type 0
InOrder key [] = Unit
InOrder key (a ∷ []) = Unit
InOrder key (a ∷ b ∷ blocks) = (key a ≤ key b) × InOrder key (b ∷ blocks)

abbrev pub AreFrom : (StreamDataBlock → ℕ) → ℕ → List StreamDataBlock → Type 0
AreFrom key k [] = Unit
AreFrom key k (b ∷ blocks) = (key b ≡ k) × AreFrom key k blocks

-- Each key has its blocks, in order.
abbrev pub Filed : (StreamDataBlock → ℕ) → (StreamDataBlock → ℕ) → Entries → Type 0
Filed key order [] = Unit
Filed key order ((k, blocks) ∷ entries) =
    AreFrom key k blocks × InOrder order blocks × Filed key order entries

module _ (key : StreamDataBlock → ℕ) where
  abbrev pub Keyed : Entries → Type 0
  Keyed [] = Unit
  Keyed ((k, blocks) ∷ entries) = AreFrom key k blocks × Keyed entries

  AreFrom-append :
      (k : ℕ) (l : List StreamDataBlock) (b : StreamDataBlock)
      → AreFrom key k l
      → key b ≡ k
      → AreFrom key k (l ++ (b ∷ []))
  AreFrom-append k [] b h e = (e, tt)
  AreFrom-append k (x ∷ l) b h e = (h.0, AreFrom-append k l b h.1 e)

  push_at-Keyed : (b : StreamDataBlock) (es : Entries) → Keyed es → Keyed (push_at (key b) b es)
  unfolding push_at
  push_at-Keyed b [] h = ((refl, tt), tt)
  push_at-Keyed b ((k, blocks) ∷ es) h = elim (Bool-cases (ltb (key b) k)) [
    | inl g ↦ rw g ((refl, tt), h)
    | inr g ↦ elim (Bool-cases (key b == k)) [
      | inl e ↦ rw (g, e) (AreFrom-append k blocks b h.0 (ground (arith, e)), h.1)
      | inr e ↦ rw (g, e) (h.0, push_at-Keyed b es h.1)
    ]
  ]

  pub push_all-Keyed :
      (l : List StreamDataBlock) (es : Entries) → Keyed es → Keyed (push_all key l es)
  unfolding push_all
  push_all-Keyed [] es h = h
  push_all-Keyed (b ∷ l) es h = push_all-Keyed l (push_at (key b) b es) (push_at-Keyed b es h)

  module _ (order : StreamDataBlock → ℕ) where
    insert_by-AreFrom :
        (k : ℕ) (b : StreamDataBlock) (l : List StreamDataBlock)
        → key b ≡ k
        → AreFrom key k l
        → AreFrom key k (insert_by order b l)
    unfolding insert_by
    insert_by-AreFrom k b [] e h = (e, tt)
    insert_by-AreFrom k b (x ∷ l) e h = elim (Bool-cases (ltb (order x) (order b))) [
      | inl g ↦ rw g (h.0, insert_by-AreFrom k b l e h.1)
      | inr g ↦ rw g (e, h)
    ]

    pub sort_by-AreFrom :
        (k : ℕ) (l : List StreamDataBlock) → AreFrom key k l → AreFrom key k (sort_by order l)
    unfolding sort_by
    sort_by-AreFrom k [] h = tt
    sort_by-AreFrom k (b ∷ l) h =
        insert_by-AreFrom k b (sort_by order l) h.0 (sort_by-AreFrom k l h.1)

    insert_by-InOrder :
        (b : StreamDataBlock) (l : List StreamDataBlock)
        → InOrder order l
        → InOrder order (insert_by order b l)
    unfolding insert_by
    insert_by-InOrder b [] h = tt
    insert_by-InOrder b (x ∷ []) h = elim (Bool-cases (ltb (order x) (order b))) [
      | inl g ↦ rw g (ground (arith, g), tt)
      | inr g ↦ rw g (ground (arith, g), tt)
    ]
    insert_by-InOrder b (x ∷ y ∷ l) h = elim (Bool-cases (ltb (order x) (order b))) [
      | inr g ↦ rw g (ground (arith, g), h)
      | inl g ↦
          let ih = insert_by-InOrder b (y ∷ l) h.1 in
          elim (Bool-cases (ltb (order y) (order b))) [
            | inl e ↦ rw (g, e) (h.0, rw e at ih)
            | inr e ↦ rw (g, e) (ground (arith, g), rw e at ih)
          ]
    ]

    pub sort_by-InOrder : (l : List StreamDataBlock) → InOrder order (sort_by order l)
    unfolding sort_by
    sort_by-InOrder [] = tt
    sort_by-InOrder (b ∷ l) = insert_by-InOrder b (sort_by order l) (sort_by-InOrder l)

    pub sort_entries-Filed : (es : Entries) → Keyed es → Filed key order (sort_entries order es)
    unfolding sort_entries
    sort_entries-Filed [] h = tt
    sort_entries-Filed ((k, blocks) ∷ es) h =
        (sort_by-AreFrom k blocks h.0, sort_by-InOrder blocks, sort_entries-Filed es h.1)

-- The map of a stage, whatever its objects: the blocks under a key are blocks of that object in the order of their
-- positions, and all its lists hold together exactly the blocks that the objects of the stage hold, by any weight.
pub generate_plan-reads :
    (order : ℕ) (objects : List CompactedObject) (builder : Option CompactedObjectBuilder)
    (w : StreamDataBlock → ℕ)
    → Filed
        (λ b. b.object_id)
        block_start_position
        (generate_plan order objects builder).stream_data_blocks_map
      × (weigh w (values (generate_plan order objects builder).stream_data_blocks_map)
          ≡ weigh_objects w (generate_plan order objects builder).compacted_objects)
unfolding generate_plan
generate_plan-reads order objects builder w =
    let blocks = object_blocks (with_builder objects builder) in
    let pushed = push_all (λ b. b.object_id) blocks [] in
    (
      sort_entries-Filed (λ b. b.object_id) block_start_position pushed
          (push_all-Keyed (λ b. b.object_id) blocks [] tt),
      omega (
        arith,
        sort_entries-weigh w block_start_position pushed,
        push_all-weigh w (λ b. b.object_id) blocks [],
        object_blocks-weigh w (with_builder objects builder),
      ),
    )

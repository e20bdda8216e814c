-- ===== src/Planner/Objects/Keeps.antt =====
-- `compact_objects` puts no block into its objects that was not given to it: what holds of each
-- block that went in holds of each that comes out.
use streamstack.Prelude.{
  ℕ, zero, suc, ◌-◌, ℤ, pos, ltb_ℤ, int_as_u64, ◌||◌, Bool-cases, Option-cases, inl, inr, Option,
  none, some, List, [], ◌∷◌, ◌++◌, take, drop, ltb, ◌==◌,
}
use streamstack.Planner.Block.{StreamDataBlock, stream_id, start_offset, block_end_offset}
use streamstack.Planner.Builder.{
  CompactedObjectBuilder, new_builder, last, add_block, add_blocks, split_range,
  split_current_stream, reset_curr_stream_position, total_block_size, curr_stream_block_size,
}
use streamstack.Planner.Objects.{
  split_object, split_and_add_block, place_block, finish_objects, compact_from, compact_objects,
}

module _ (P : StreamDataBlock → Type 0) where
  abbrev pub All : List StreamDataBlock → Type 0
  All [] = Unit
  All (b ∷ blocks) = P b × All blocks

  abbrev pub AllBuilders : List CompactedObjectBuilder → Type 0
  AllBuilders [] = Unit
  AllBuilders (b ∷ builders) = All b.blocks × AllBuilders builders

  pub All-append : (a b : List StreamDataBlock) → All a → All b → All (a ++ b)
  All-append [] b h k = k
  All-append (x ∷ a) b h k = (h.0, All-append a b h.1 k)

  AllBuilders-append :
      (a b : List CompactedObjectBuilder) → AllBuilders a → AllBuilders b → AllBuilders (a ++ b)
  AllBuilders-append [] b h k = k
  AllBuilders-append (x ∷ a) b h k = (h.0, AllBuilders-append a b h.1 k)

  All-take : (n : ℕ) (l : List StreamDataBlock) → All l → All (take n l)
  All-take zero l h = tt
  All-take (suc n) [] h = tt
  All-take (suc n) (x ∷ l) h = (h.0, All-take n l h.1)

  All-drop : (n : ℕ) (l : List StreamDataBlock) → All l → All (drop n l)
  All-drop zero l h = h
  All-drop (suc n) [] h = tt
  All-drop (suc n) (x ∷ l) h = All-drop n l h.1

  add_blocks-All :
      (b : CompactedObjectBuilder) (l : List StreamDataBlock)
      → All b.blocks
      → All l
      → All (add_blocks b l).blocks
  unfolding add_block
  add_blocks-All b [] h k = h
  add_blocks-All b (x ∷ l) h k =
      add_blocks-All (add_block b x) l (All-append b.blocks (x ∷ []) h (k.0, tt)) k.1

  split_range-All :
      (b : CompactedObjectBuilder) (start end : ℤ)
      → All b.blocks
      → All (split_range b start end).0.blocks × All (split_range b start end).1.blocks
  unfolding split_range reset_curr_stream_position
  split_range-All b start end h =
      let from = int_as_u64 start in
      let to = int_as_u64 end in
      elim (Bool-cases (ltb_ℤ start (pos 0) || ltb_ℤ b.curr_stream_index_tail end)) [
        | inl g ↦ rw g (tt, h)
        | inr g ↦ rw g (
          add_blocks-All new_builder (take (to - from) (drop from b.blocks)) tt
              (All-take (to - from) (drop from b.blocks) (All-drop from b.blocks h)),
          All-append (take from b.blocks) (drop to b.blocks) (All-take from b.blocks h)
              (All-drop to b.blocks h),
        )
      ]

  split_object-All :
      (b : CompactedObjectBuilder) (acc : List CompactedObjectBuilder)
      → All b.blocks
      → AllBuilders acc
      → AllBuilders (split_object b acc)
  unfolding split_object split_current_stream
  split_object-All b acc h k =
      let parts = split_range-All b b.curr_stream_index_head b.curr_stream_index_tail h in
      elim (Bool-cases (total_block_size (split_current_stream b).1 == 0)) [
        | inl e ↦ rw e (AllBuilders-append acc _ k (parts.0, tt))
        | inr e ↦ rw e (AllBuilders-append acc _ k (parts.1, (parts.0, tt)))
      ]

  abbrev Keeps : Option (CompactedObjectBuilder × List CompactedObjectBuilder) → Type 0
  Keeps none = Unit
  Keeps (some (b, acc)) = All b.blocks × AllBuilders acc

  abbrev pub KeepsBuilders : Option (List CompactedObjectBuilder) → Type 0
  KeepsBuilders none = Unit
  KeepsBuilders (some builders) = AllBuilders builders

  place_block-Keeps :
      (n : ℕ) (b : CompactedObjectBuilder) (x : StreamDataBlock) (acc : List CompactedObjectBuilder)
      → All b.blocks
      → P x
      → AllBuilders acc
      → Keeps (place_block n b x acc)
  unfolding place_block split_and_add_block add_block
  place_block-Keeps n b x acc h p k =
      let added = All-append b.blocks (x ∷ []) h (p, tt) in
      let cut = split_object-All b acc h k in
      elim (Option-cases (last b.blocks)) [
        | inl e ↦ rw (e, place_block) (added, k)
        | inr (y, e) ↦ elim (Bool-cases (stream_id y == stream_id x)) [
          | inl s ↦ elim (Bool-cases (ltb (block_end_offset y) (start_offset x))) [
            | inl g ↦ rw (e, place_block, s, g) ((p, tt), cut)
            | inr g ↦ elim (Bool-cases (start_offset x == block_end_offset y)) [
              | inl m ↦ rw (e, place_block, s, g, m) (added, k)
              | inr m ↦ rw (e, place_block, s, g, m) tt
            ]
          ]
          | inr s ↦ elim (Bool-cases (ltb n (curr_stream_block_size b))) [
            | inl g ↦ rw (e, place_block, s, g) ((p, tt), cut)
            | inr g ↦ rw (e, place_block, s, g) (added, k)
          ]
        ]
      ]

  finish_objects-All :
      (n : ℕ) (b : CompactedObjectBuilder) (acc : List CompactedObjectBuilder)
      → All b.blocks
      → AllBuilders acc
      → AllBuilders (finish_objects n b acc)
  unfolding finish_objects
  finish_objects-All n b acc h k = elim (Bool-cases (ltb n (curr_stream_block_size b))) [
    | inl g ↦ rw g (split_object-All b acc h k)
    | inr g ↦ rw g (AllBuilders-append acc (b ∷ []) k (h, tt))
  ]

  placed-Keeps :
      (n : ℕ) (l : List StreamDataBlock)
      → ((b : CompactedObjectBuilder) (acc : List CompactedObjectBuilder)
          → All b.blocks
          → AllBuilders acc
          → KeepsBuilders (compact_from n b acc l))
      → (r : Option (CompactedObjectBuilder × List CompactedObjectBuilder)) → Keeps r
      → KeepsBuilders (elim r [ none ↦ none | some (b', acc') ↦ compact_from n b' acc' l ])
  placed-Keeps n l ih none q = tt
  placed-Keeps n l ih (some (b', acc')) q = ih b' acc' q.0 q.1

  compact_from-Keeps :
      (n : ℕ) (l : List StreamDataBlock) (b : CompactedObjectBuilder)
      (acc : List CompactedObjectBuilder)
      → All b.blocks
      → AllBuilders acc
      → All l
      → KeepsBuilders (compact_from n b acc l)
  unfolding compact_from
  compact_from-Keeps n [] b acc h k m = finish_objects-All n b acc h k
  compact_from-Keeps n (x ∷ l) b acc h k m =
      placed-Keeps n l (λ b' acc' h' k'. compact_from-Keeps n l b' acc' h' k' m.1)
        (place_block n b x acc) (place_block-Keeps n b x acc h m.0 k)

  pub compact_objects-Keeps :
      (n : ℕ) (l : List StreamDataBlock) → All l → KeepsBuilders (compact_objects n l)
  unfolding compact_objects
  compact_objects-Keeps n l h = compact_from-Keeps n l new_builder [] tt tt h

-- ===== src/Planner/Objects/Conserved.antt =====
-- `compact_objects` succeeds on ordered blocks, and loses none of them.
use streamstack.Prelude.{
  ltb_ℤ, ℕ, ◌<◌, ◌≤◌, ◌≡◌, refl, ap, ◌∙◌, arith, true, false, Option, some, List, [], ◌∷◌, ◌++◌,
  ltb, ◌==◌, Bool-cases, ◌⊎◌, inl, inr, u64_mod,
}
use streamstack.Planner.Block.{StreamDataBlock, stream_id, start_offset, block_end_offset, sizes}
use streamstack.Planner.Builder.{
  CompactedObjectBuilder, new_builder, last, add_block, curr_stream_block_size,
}
use streamstack.Planner.Builder.Window.{
  Window, append_assoc, append_nil, add_block-Window, add_block-Window_new,
}
use streamstack.Planner.Objects.{
  split_object, split_and_add_block, place_block, finish_objects, compact_from, compact_objects,
}
use streamstack.Planner.Objects.Split.{
  all_blocks, HaveTails, Solid, in_order, Ordered, all_blocks-append, HaveTails-append,
  sizes-append, Solid-left, Solid-right, Window-HasTail, last-append, split_object-blocks,
  split_object-HaveTails,
}

-- A round either adds the block to the builder or cuts the builder and begins a new one.
place_block-cases :
    (n : ℕ) (b : CompactedObjectBuilder) (p x : StreamDataBlock) (acc : List CompactedObjectBuilder)
    → last b.blocks ≡ some p
    → in_order p x ≡ true
    → (place_block n b x acc ≡ some (add_block b x, acc))
      ⊎ (place_block n b x acc ≡ some (add_block new_builder x, split_object b acc))
unfolding place_block split_and_add_block
place_block-cases n b p x acc e o = elim (Bool-cases (stream_id p == stream_id x)) [
  | inl s ↦
      let same : stream_id p ≡ stream_id x = ground (arith, s) in
      let order : block_end_offset p ≤ start_offset x = ground (arith, o, same) in
      elim (Bool-cases (ltb (block_end_offset p) (start_offset x))) [
        | inl g ↦ inr (rw (e, place_block, s, g))
        | inr g ↦ inl (
            let meet : (start_offset x == block_end_offset p) ≡ true = ground arith in
            rw (e, place_block, s, g, meet))
      ]
  | inr s ↦ elim (Bool-cases (ltb n (curr_stream_block_size b))) [
    | inl g ↦ inr (rw (e, place_block, s, g))
    | inr g ↦ inl (rw (e, place_block, s, g))
  ]
]

-- What the planner owes of the blocks from a builder on.
pub record Cut (acc : List CompactedObjectBuilder) (blocks : List StreamDataBlock)
    (result : Option (List CompactedObjectBuilder)) : Type 0 where
  pub builders : List CompactedObjectBuilder
  pub succeeds : result ≡ some builders
  pub whole : all_blocks builders ≡ all_blocks acc ++ blocks
  pub tails : HaveTails builders

Cut-step :
    {acc acc' : List CompactedObjectBuilder} {blocks blocks' : List StreamDataBlock}
    {result result' : Option (List CompactedObjectBuilder)}
    → result ≡ result'
    → all_blocks acc' ++ blocks' ≡ all_blocks acc ++ blocks
    → Cut acc' blocks' result'
    → Cut acc blocks result
Cut-step e l c = record {
  builders = c.builders;
  succeeds = e ∙ c.succeeds;
  whole = c.whole ∙ l;
  tails = c.tails;
}

finish_objects-Cut :
    (n : ℕ) (b : CompactedObjectBuilder) (acc : List CompactedObjectBuilder) (h : ℕ)
    → Window b h
    → Solid b.blocks
    → sizes b.blocks < u64_mod
    → HaveTails acc
    → Cut acc b.blocks (some (finish_objects n b acc))
unfolding finish_objects
finish_objects-Cut n b acc h w s l t = elim (Bool-cases (ltb n (curr_stream_block_size b))) [
  | inl g ↦ rw g (record {
    builders = split_object b acc;
    succeeds = refl;
    whole = split_object-blocks b acc h w s l;
    tails = split_object-HaveTails b acc (Window-HasTail b h w) t;
  })
  | inr g ↦ rw g (record {
    builders = acc ++ (b ∷ []);
    succeeds = refl;
    whole = all_blocks-append acc (b ∷ []) ∙ ap (λ r. all_blocks acc ++ r) (append_nil b.blocks);
    tails = HaveTails-append acc (b ∷ []) t (Window-HasTail b h w, tt);
  })
]

compact_from-step :
    (n : ℕ) (b b' : CompactedObjectBuilder) (x : StreamDataBlock) (bs : List StreamDataBlock)
    (acc acc' : List CompactedObjectBuilder)
    → place_block n b x acc ≡ some (b', acc')
    → compact_from n b acc (x ∷ bs) ≡ compact_from n b' acc' bs
unfolding compact_from
compact_from-step n b b' x bs acc acc' q = rw (q, compact_from) refl

compact_from-Cut :
    (n : ℕ) (bs : List StreamDataBlock) (b : CompactedObjectBuilder) (p : StreamDataBlock)
    (acc : List CompactedObjectBuilder) (h : ℕ)
    → Window b h
    → last b.blocks ≡ some p
    → Ordered (p ∷ bs)
    → Solid (b.blocks ++ bs)
    → sizes (b.blocks ++ bs) < u64_mod
    → HaveTails acc
    → Cut acc (b.blocks ++ bs) (compact_from n b acc bs)
unfolding compact_from add_block
compact_from-Cut n [] b p acc h w e o s l t =
    let nil = append_nil b.blocks in
    rw nil (finish_objects-Cut n b acc h w (rw nil at s) (rw nil at l) t)
compact_from-Cut n (x ∷ bs) b p acc h w e o s l t =
    let grown : (b.blocks ++ (x ∷ [])) ++ bs ≡ b.blocks ++ (x ∷ bs) =
      append_assoc b.blocks (x ∷ []) bs in
    elim (place_block-cases n b p x acc e o.0) [
      | inl q ↦
          let (h', w') = add_block-Window b h x w in
          Cut-step (compact_from-step n b (add_block b x) x bs acc acc q)
            (ap (λ r. all_blocks acc ++ r) grown)
            (compact_from-Cut n bs (add_block b x) x acc h' w' (last-append b.blocks x) o.1
              (rw grown s) (rw grown l) t)
      | inr q ↦
          let total = sizes-append b.blocks (x ∷ bs) in
          let pushed =
            split_object-blocks b acc h w (Solid-left b.blocks (x ∷ bs) s) (omega (arith, total)) in
          Cut-step (compact_from-step n b (add_block new_builder x) x bs acc (split_object b acc) q)
            (ap (λ r. r ++ (x ∷ bs)) pushed ∙ append_assoc (all_blocks acc) b.blocks (x ∷ bs))
            (compact_from-Cut n bs (add_block new_builder x) x (split_object b acc) 0
              (add_block-Window_new x) refl o.1 (Solid-right b.blocks (x ∷ bs) s)
              (omega (arith, total)) (split_object-HaveTails b acc (Window-HasTail b h w) t))
    ]

compact_objects-none : (n : ℕ) → compact_objects n [] ≡ some (new_builder ∷ [])
unfolding compact_objects compact_from finish_objects curr_stream_block_size ltb_ℤ
compact_objects-none n = let below : ltb n 0 ≡ false = ground arith in rw below refl

-- On blocks none of which is empty, which are sorted so that the blocks of one stream do not overlap, and whose sizes sum
-- to less than 2^64, `compact_objects` succeeds, and the output objects, read one after another, hold exactly the blocks
-- that went in, in their order.
pub compact_objects-Cut :
    (n : ℕ) (blocks : List StreamDataBlock)
    → Ordered blocks
    → Solid blocks
    → sizes blocks < u64_mod
    → Cut [] blocks (compact_objects n blocks)
unfolding compact_objects compact_from place_block add_block
compact_objects-Cut n [] o s l = record {
  builders = new_builder ∷ [];
  succeeds = compact_objects-none n;
  whole = refl;
  tails = (refl, tt);
}
compact_objects-Cut n (x ∷ bs) o s l =
    compact_from-Cut n bs (add_block new_builder x) x [] 0 (add_block-Window_new x) refl o s l tt

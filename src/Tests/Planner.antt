-- ===== src/Tests/Planner.antt =====
-- The theorems on the planner at four blocks of two streams.
use streamstack.Prelude.{pos, ◌+◌, ◌*◌, length, ◌≡◌, refl, none, arith, List, [], ◌∷◌}
use streamstack.Planner.Block.{StreamDataBlock, new_block, compact}
use streamstack.Planner.Builder.{CompactedObjectBuilder}
use streamstack.Planner.Objects.{compact_objects}
use streamstack.Planner.Objects.Conserved.{Cut, compact_objects-Cut}
use streamstack.Planner.Objects.Split.{Ordered, Solid}
use streamstack.Planner.Stages.{first_stage, generate_plan_with_cache_limit}
use streamstack.Planner.Stages.Weights.{weigh_builders}
use streamstack.Planner.Stages.Terminates.{
  IsSmall, one, Planned, generate_plan_with_cache_limit-Planned, oversized_block_never_planned,
}
use streamstack.Planner.Stages.Whole.{Compacted, sorted_blocks_planned}

-- Stream 1 in the objects 7 and 8, and stream 2 in both.
abbrev pub four_blocks : List StreamDataBlock
four_blocks =
    new_block 1 0 10 7 0 100 5
    ∷ new_block 1 10 20 8 0 80 5
    ∷ new_block 2 0 4 7 100 60 2
    ∷ new_block 2 4 9 8 80 40 2
    ∷ []

four_Ordered : Ordered four_blocks
unfolding new_block
four_Ordered = (refl, (refl, (refl, tt)))

four_Solid : Solid four_blocks
unfolding new_block
four_Solid = (omega arith, (omega arith, (omega arith, (omega arith, tt))))

four_IsSmall : IsSmall 150 four_blocks
unfolding new_block
four_IsSmall = (omega arith, (omega arith, (omega arith, (omega arith, tt))))

compact_objects-Cut_example : Cut [] four_blocks (compact_objects 150 four_blocks)
unfolding new_block
compact_objects-Cut_example =
    compact_objects-Cut 150 four_blocks four_Ordered four_Solid (omega arith)

sorted_blocks_planned_example : Compacted 150 150 four_blocks
unfolding new_block
sorted_blocks_planned_example =
    sorted_blocks_planned 150 150 four_blocks four_Ordered four_Solid four_IsSmall (omega arith)

abbrev one_builder : CompactedObjectBuilder
one_builder = record {
  compaction_type = compact;
  blocks = four_blocks;
  curr_stream_index_head = pos 2;
  curr_stream_index_tail = pos 4;
}

generate_plan_with_cache_limit-Planned_example : Planned 150 (first_stage (one_builder ∷ [])) (
    generate_plan_with_cache_limit
      (2 * weigh_builders one (one_builder ∷ []) + 2 * length (one_builder ∷ []) + 1)
      150
      (one_builder ∷ []))
unfolding new_block
generate_plan_with_cache_limit-Planned_example =
    generate_plan_with_cache_limit-Planned 150 (one_builder ∷ []) (refl, tt) (four_IsSmall, tt)
      (omega arith)

oversized_block_never_planned_example :
    generate_plan_with_cache_limit 1000 50 (one_builder ∷ []) ≡ none
unfolding new_block
oversized_block_never_planned_example =
    oversized_block_never_planned 50 1000 one_builder [] (new_block 1 0 10 7 0 100 5) _ refl
      (omega arith) (omega arith)

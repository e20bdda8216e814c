-- ===== src/Tests/Selection.antt =====
-- The theorems on the choice, the sort and the grouping of blocks at the blocks of two objects.
use streamstack.Prelude.{◌≡◌, refl, arith, none, some, List, [], ◌∷◌}
use streamstack.Planner.Block.{new_block, block_size, block_start_position, CompactedObject, split}
use streamstack.Planner.Entries.{Entries, values, weigh}
use streamstack.Planner.Group.{
  group_stream_data_blocks, test_offset, new_offset, test_limit, new_limit,
}
use streamstack.Planner.Group.Rows.{ungroup, EachGroup, Adjoin, offset_groups}
use streamstack.Planner.Group.Limits.{LimitedRow, limit_groups}
use streamstack.Planner.Stages.{generate_plan}
use streamstack.Planner.Stages.Weights.{weigh_objects}
use streamstack.Planner.Stages.Reads.{Filed, generate_plan-reads}
use streamstack.Planner.Selection.{
  sort_stream_range_positions, filter_blocks_to_compact, insert_at, insert_all, is_shared,
}
use streamstack.Planner.Selection.Sharing.{keep_sharing}
use streamstack.Planner.Selection.Shared.{filter_blocks_to_compact_exact}
use streamstack.Planner.Selection.Analyze.{CompactionAnalyzer, Grouped, group_object_with_limits}
use streamstack.Planner.Selection.Ends.{group_object_with_limits_ends}
use streamstack.Planner.Selection.Order.{StreamMajor, sort_stream_range_positions-StreamMajor}
use streamstack.Tests.Planner.{four_blocks}

-- The objects 8 and 7, in this order, with blocks of the streams 1 and 2.
abbrev two_objects : Entries
two_objects =
    (8, new_block 2 4 9 8 80 40 2 ∷ new_block 1 10 20 8 0 80 5 ∷ [])
    ∷ (7, new_block 1 0 10 7 0 100 5 ∷ new_block 2 0 4 7 100 60 2 ∷ [])
    ∷ []

abbrev analyzer : CompactionAnalyzer
analyzer = record {
  compaction_cache_size = 150;
  stream_split_size = 150;
  max_stream_num_in_stream_set = 10;
  max_stream_object_num = 0;
}

sort_stream_range_positions-StreamMajor_example :
    StreamMajor (sort_stream_range_positions two_objects)
    × (weigh block_size (sort_stream_range_positions two_objects)
        ≡ weigh block_size (values two_objects))
sort_stream_range_positions-StreamMajor_example =
    sort_stream_range_positions-StreamMajor two_objects block_size

-- The object 9 has its stream to itself.
abbrev three_objects : Entries
three_objects = (9, new_block 3 0 6 9 0 50 3 ∷ []) ∷ two_objects

lone_object_is_dropped : filter_blocks_to_compact three_objects ≡ two_objects
unfolding filter_blocks_to_compact insert_all insert_at is_shared new_block
lone_object_is_dropped = refl

filter_blocks_to_compact_exact_example :
    filter_blocks_to_compact three_objects ≡ keep_sharing (values three_objects) three_objects
filter_blocks_to_compact_exact_example = filter_blocks_to_compact_exact three_objects

group_object_with_limits_ends_example :
    (g : Grouped) × (group_object_with_limits analyzer two_objects [] ≡ some g)
group_object_with_limits_ends_example = group_object_with_limits_ends analyzer two_objects []

abbrev one_object : List CompactedObject
one_object = record { compaction_type = split; blocks = four_blocks } ∷ []

generate_plan-reads_example :
    Filed
      (λ b. b.object_id)
      block_start_position
      (generate_plan 0 one_object none).stream_data_blocks_map
    × (weigh block_size (values (generate_plan 0 one_object none).stream_data_blocks_map)
        ≡ weigh_objects block_size (generate_plan 0 one_object none).compacted_objects)
generate_plan-reads_example = generate_plan-reads 0 one_object none block_size

offset_groups_example :
    (ungroup (group_stream_data_blocks test_offset new_offset four_blocks) ≡ four_blocks)
    × EachGroup Adjoin (group_stream_data_blocks test_offset new_offset four_blocks)
unfolding new_block
offset_groups_example =
    offset_groups four_blocks (omega arith, (omega arith, (omega arith, (omega arith, tt))))

limit_groups_example :
    (ungroup (group_stream_data_blocks test_limit (new_limit 120) four_blocks) ≡ four_blocks)
    × EachGroup (LimitedRow 120) (group_stream_data_blocks test_limit (new_limit 120) four_blocks)
unfolding new_block
limit_groups_example = limit_groups 120 four_blocks (omega arith) (
  (omega arith, omega arith, omega arith),
  (
    (omega arith, omega arith, omega arith),
    ((omega arith, omega arith, omega arith), ((omega arith, omega arith, omega arith), tt)),
  ),
)

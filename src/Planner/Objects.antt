-- ===== src/Planner/Objects.antt =====
-- `compact_objects`: the sorted blocks cut into output objects.
pub mod Conserved
pub mod Keeps
pub mod Split
use streamstack.Prelude.{
  ℕ, ◌%◌, Bool, true, false, Option, none, some, List, [], ◌∷◌, ◌++◌, ltb, ◌==◌, if◌then◌else◌,
}
use streamstack.Planner.Block.{StreamDataBlock, stream_id, start_offset, block_end_offset, split}
use streamstack.Planner.Builder.{
  CompactedObjectBuilder, new_builder, last, add_block, split_current_stream, total_block_size,
  curr_stream_block_size,
}

-- The current stream becomes an object of its own, and what stands before it another one.
unfoldable pub split_object :
    CompactedObjectBuilder → List CompactedObjectBuilder → List CompactedObjectBuilder
split_object builder builders =
    let (split_builder, rest) = split_current_stream builder in
    let split_builder' = record split_builder { compaction_type = split } in
    if total_block_size rest == 0
    then builders ++ (split_builder' ∷ [])
    else builders ++ (rest ∷ split_builder' ∷ [])

-- The builder and the builders behind a block of another stream.
unfoldable pub split_and_add_block :
    ℕ
    → CompactedObjectBuilder
    → StreamDataBlock
    → List CompactedObjectBuilder
    → CompactedObjectBuilder × List CompactedObjectBuilder
split_and_add_block stream_split_size builder block builders =
    if ltb stream_split_size (curr_stream_block_size builder)
    then (add_block new_builder block, split_object builder builders)
    else (add_block builder block, builders)

-- One round of the loop; none where a block begins before the end of the one before it.
unfoldable pub place_block :
    ℕ
    → CompactedObjectBuilder
    → StreamDataBlock
    → List CompactedObjectBuilder
    → Option (CompactedObjectBuilder × List CompactedObjectBuilder)
place_block stream_split_size builder block builders = elim (last builder.blocks) [
  | none ↦ some (add_block builder block, builders)
  | some previous ↦
      if stream_id previous == stream_id block
      then (if ltb (block_end_offset previous) (start_offset block)
          then some (add_block new_builder block, split_object builder builders)
          else if start_offset block == block_end_offset previous
          then some (add_block builder block, builders)
          else none)
      else some (split_and_add_block stream_split_size builder block builders)
]

-- What stands behind the loop.
unfoldable pub finish_objects :
    ℕ → CompactedObjectBuilder → List CompactedObjectBuilder → List CompactedObjectBuilder
finish_objects stream_split_size builder builders =
    if ltb stream_split_size (curr_stream_block_size builder)
    then split_object builder builders
    else builders ++ (builder ∷ [])

unfoldable pub compact_from :
    ℕ
    → CompactedObjectBuilder
    → List CompactedObjectBuilder
    → List StreamDataBlock
    → Option (List CompactedObjectBuilder)
compact_from stream_split_size builder builders [] =
    some (finish_objects stream_split_size builder builders)
compact_from stream_split_size builder builders (block ∷ blocks) =
    elim (place_block stream_split_size builder block builders) [
      | none ↦ none
      | some (builder', builders') ↦ compact_from stream_split_size builder' builders' blocks
    ]

unfoldable pub compact_objects : ℕ → List StreamDataBlock → Option (List CompactedObjectBuilder)
compact_objects stream_split_size sorted_blocks =
    compact_from stream_split_size new_builder [] sorted_blocks

-- ===== src/Planner/Builder.antt =====
-- `CompactedObjectBuilder`: the blocks of one output object, with the window of the stream that
-- stands last in them.
pub mod Window
use streamstack.Prelude.{
  ℕ, suc, ◌+◌, ◌-◌, ◌%◌, ℤ, pos, negsuc, ltb_ℤ, int_as_u64, Bool, true, false, not, ◌||◌, Option,
  none, some, List, [], ◌∷◌, ◌++◌, length, take, drop, ◌==◌, if◌then◌else◌, u64_mod,
}
use streamstack.Planner.Block.{
  StreamDataBlock, stream_id, block_end_offset, block_size, CompactionType, split, compact,
  CompactedObject, sizes,
}

pub record CompactedObjectBuilder : Type 0 where
  pub compaction_type : CompactionType
  pub blocks : List StreamDataBlock
  pub curr_stream_index_head : ℤ
  pub curr_stream_index_tail : ℤ

abbrev pub new_builder : CompactedObjectBuilder
new_builder = record {
  compaction_type = compact;
  blocks = [];
  curr_stream_index_head = negsuc 0;
  curr_stream_index_tail = negsuc 0;
}

abbrev pub last : List StreamDataBlock → Option StreamDataBlock
last [] = none
last (b ∷ []) = some b
last (b ∷ c ∷ blocks) = last (c ∷ blocks)

abbrev pub is_stream : ℕ → Option StreamDataBlock → Bool
is_stream i none = false
is_stream i (some b) = stream_id b == i

unfoldable pub add_block : CompactedObjectBuilder → StreamDataBlock → CompactedObjectBuilder
add_block builder block = record builder {
  blocks = builder.blocks ++ (block ∷ []);
  curr_stream_index_head =
      if is_stream (stream_id block) (last builder.blocks)
      then builder.curr_stream_index_head
      else pos (length builder.blocks);
  curr_stream_index_tail = pos (length builder.blocks + 1);
}

abbrev pub add_blocks : CompactedObjectBuilder → List StreamDataBlock → CompactedObjectBuilder
add_blocks builder [] = builder
add_blocks builder (b ∷ blocks) = add_blocks (add_block builder b) blocks

abbrev pub same_stream : Option ℕ → ℕ → Bool
same_stream none i = false
same_stream (some j) i = j == i

-- The head of the last run of one stream among the blocks from position `i` on.
abbrev pub run_head : ℤ → Option ℕ → ℕ → List StreamDataBlock → ℤ
run_head head curr i [] = head
run_head head curr i (b ∷ blocks) =
    run_head (if same_stream curr (stream_id b) then head else pos i) (some (stream_id b)) (i + 1)
      blocks

abbrev pub run_tail : List StreamDataBlock → ℤ
run_tail [] = negsuc 0
run_tail (b ∷ blocks) = pos (length (b ∷ blocks))

unfoldable pub reset_curr_stream_position : CompactedObjectBuilder → CompactedObjectBuilder
reset_curr_stream_position builder = record builder {
  curr_stream_index_head = run_head (negsuc 0) none 0 builder.blocks;
  curr_stream_index_tail = run_tail builder.blocks;
}

-- The blocks of a range, cut out into a builder of their own, and the builder without them. The
-- range lies in the blocks wherever the planner cuts.
unfoldable pub split_range :
    CompactedObjectBuilder → ℤ → ℤ → CompactedObjectBuilder × CompactedObjectBuilder
split_range builder start end =
    if ltb_ℤ start (pos 0) || ltb_ℤ builder.curr_stream_index_tail end
    then (new_builder, builder)
    else (let from = int_as_u64 start in
        let to = int_as_u64 end in
        (
          record (add_blocks new_builder (take (to - from) (drop from builder.blocks))) {
            compaction_type = builder.compaction_type;
          },
          reset_curr_stream_position
              (record builder { blocks = take from builder.blocks ++ drop to builder.blocks }),
        ))

unfoldable pub split_current_stream :
    CompactedObjectBuilder → CompactedObjectBuilder × CompactedObjectBuilder
split_current_stream builder =
    split_range builder builder.curr_stream_index_head builder.curr_stream_index_tail

abbrev pub total_block_size : CompactedObjectBuilder → ℕ
total_block_size builder = sizes builder.blocks % u64_mod

unfoldable pub curr_stream_block_size : CompactedObjectBuilder → ℕ
curr_stream_block_size builder =
    if ltb_ℤ builder.curr_stream_index_head (pos 0) || ltb_ℤ builder.curr_stream_index_tail (pos 0)
    then 0
    else (let from = int_as_u64 builder.curr_stream_index_head in
        sizes (take (int_as_u64 builder.curr_stream_index_tail - from) (drop from builder.blocks))
        % u64_mod)

unfoldable pub merge : CompactedObjectBuilder → CompactedObjectBuilder → CompactedObjectBuilder
merge builder other = elim other.compaction_type [
  | split ↦ builder
  | compact ↦
      reset_curr_stream_position (record builder { blocks = builder.blocks ++ other.blocks })
]

abbrev pub build : CompactedObjectBuilder → CompactedObject
build builder = record { compaction_type = builder.compaction_type; blocks = builder.blocks }

-- ===== src/Planner/Group.antt =====
-- Grouping of blocks in a row (`group_stream_data_blocks`), with its two predicates. A predicate
-- has a state of its own.
pub mod Limits
pub mod Rows
use streamstack.Prelude.{
  ℕ, ◌+◌, ◌-◌, ◌%◌, ◌^◌, ℤ, negsuc, eqb_ℤ, Bool, true, false, not, ◌&&◌, ◌||◌, List, [], ◌∷◌, ◌++◌,
  ltb, leb, ◌==◌, if◌then◌else◌, add_u64, u64_mod, u64_as_i64,
}
use streamstack.Planner.Block.{
  StreamDataBlock, stream_id, start_offset, block_end_offset, block_size,
}

-- A last group, unless it is empty.
abbrev pub close_group :
    List StreamDataBlock → List (List StreamDataBlock) → List (List StreamDataBlock)
close_group [] groups = groups
close_group (b ∷ blocks) groups = (b ∷ blocks) ∷ groups

-- The loop, on the group in hand; a block that is refused while that one is empty is left out.
unfoldable pub group_from :
    {S : Type 0}
    → (S → StreamDataBlock → Bool × S)
    → S
    → List StreamDataBlock
    → List StreamDataBlock
    → List (List StreamDataBlock)
group_from test s curr [] = close_group curr []
group_from test s curr (block ∷ blocks) =
    let (flag, s') = test s block in
    let kept = group_from test s' (curr ++ (block ∷ [])) blocks in
    let begun = group_from test s' (block ∷ []) blocks in
    let dropped = group_from test s' [] blocks in
    if flag then kept else (elim curr [ [] ↦ dropped | b ∷ bs ↦ (b ∷ bs) ∷ begun ])

unfoldable pub group_stream_data_blocks :
    {S : Type 0}
    → (S → StreamDataBlock → Bool × S)
    → S
    → List StreamDataBlock
    → List (List StreamDataBlock)
group_stream_data_blocks predicate s blocks = group_from predicate s [] blocks

pub record GroupByLimitPredicate : Type 0 where
  pub block_size_threshold : ℕ
  pub stream : ℤ
  pub first_offset : ℕ
  pub next_start_offset : ℕ
  pub total_size : ℕ
  pub record_cnt : ℕ

abbrev pub new_limit : ℕ → GroupByLimitPredicate
new_limit block_size_threshold = record {
  block_size_threshold = block_size_threshold;
  stream = negsuc 0;
  first_offset = 0;
  next_start_offset = 0;
  total_size = 0;
  record_cnt = 0;
}

abbrev pub i32_max : ℕ
i32_max = 2 ^ 31 - 1

-- Whether a block ends the group.
abbrev pub limit_cuts : GroupByLimitPredicate → StreamDataBlock → Bool
limit_cuts p block =
    eqb_ℤ p.stream (negsuc 0)
    || not (eqb_ℤ (u64_as_i64 (stream_id block)) p.stream)
    || not (start_offset block == p.next_start_offset)
    || leb p.block_size_threshold (add_u64 p.total_size (block_size block))
    || ltb i32_max (add_u64 p.record_cnt block.index.record_count)
    || ltb i32_max ((block_end_offset block + u64_mod - p.first_offset) % u64_mod)

abbrev pub restart : StreamDataBlock → GroupByLimitPredicate → GroupByLimitPredicate
restart block p = record p {
  stream = u64_as_i64 (stream_id block);
  first_offset = start_offset block;
  total_size = 0;
  record_cnt = 0;
}

abbrev pub take_block : StreamDataBlock → GroupByLimitPredicate → GroupByLimitPredicate
take_block block p = record p {
  next_start_offset = block_end_offset block;
  total_size = add_u64 p.total_size (block_size block);
  record_cnt = add_u64 p.record_cnt block.index.record_count;
}

unfoldable pub test_limit : GroupByLimitPredicate → StreamDataBlock → Bool × GroupByLimitPredicate
test_limit p block =
    if limit_cuts p block
    then (eqb_ℤ p.stream (negsuc 0), take_block block (restart block p))
    else (true, take_block block p)

pub record GroupByOffsetPredicate : Type 0 where
  pub curr_stream : ℤ
  pub next_offset : ℕ

abbrev pub new_offset : GroupByOffsetPredicate
new_offset = record { curr_stream = negsuc 0; next_offset = 0 }

unfoldable pub test_offset :
    GroupByOffsetPredicate → StreamDataBlock → Bool × GroupByOffsetPredicate
test_offset p block =
    if eqb_ℤ p.curr_stream (negsuc 0)
    then (
      true,
      record { curr_stream = u64_as_i64 (stream_id block); next_offset = block_end_offset block },
    )
    else if eqb_ℤ p.curr_stream (u64_as_i64 (stream_id block))
        && (p.next_offset == start_offset block)
    then (true, record p { next_offset = block_end_offset block })
    else (
      false,
      record { curr_stream = u64_as_i64 (stream_id block); next_offset = block_end_offset block },
    )

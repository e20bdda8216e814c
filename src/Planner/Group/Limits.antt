-- ===== src/Planner/Group/Limits.antt =====
-- The groups of the limit predicate: rows of adjoining blocks below its three limits.
use streamstack.Prelude.{
  ℕ, ◌+◌, ◌-◌, ◌%◌, ◌^◌, ◌<◌, ◌≤◌, pos, eqb_ℤ, ◌≡◌, refl, sym, ap, ◌∙◌, arith, true, false,
  Bool-cases, ◌⊎◌, inl, inr, Option, none, some, List, [], ◌∷◌, ◌++◌, length, add_u64, u64_mod,
}
use streamstack.Planner.Block.{
  StreamDataBlock, stream_id, start_offset, block_end_offset, block_size, sizes,
}
use streamstack.Planner.Builder.{last}
use streamstack.Planner.Objects.Split.{last-append, sizes-append}
use streamstack.Planner.Group.{
  group_from, group_stream_data_blocks, GroupByLimitPredicate, new_limit, limit_cuts, restart,
  take_block, test_limit, i32_max,
}
use streamstack.Planner.Group.Rows.{
  ungroup, EachGroup, Adjoin, Adjoin-append, IsStream, as_i64_small, group_from-Grouped,
}

abbrev pub record_counts : List StreamDataBlock → ℕ
record_counts [] = 0
record_counts (b ∷ blocks) = b.index.record_count + record_counts blocks

record_counts-append :
    (a b : List StreamDataBlock) → record_counts (a ++ b) ≡ record_counts a + record_counts b
record_counts-append [] b = omega arith
record_counts-append (x ∷ a) b = omega (arith, record_counts-append a b)

-- A block whose numbers fit their words, of a stream below 2^63.
abbrev pub BlockFits : StreamDataBlock → Type 0
BlockFits b = IsStream b × (block_size b < 2 ^ 32) × (b.index.record_count < 2 ^ 32)

abbrev pub EachFits : List StreamDataBlock → Type 0
EachFits [] = Unit
EachFits (b ∷ blocks) = BlockFits b × EachFits blocks

abbrev pub first_start : List StreamDataBlock → ℕ
first_start [] = 0
first_start (b ∷ blocks) = start_offset b

-- From the start of the first block to the end of a last one, as a difference of words.
abbrev span_to : ℕ → Option StreamDataBlock → ℕ
span_to start none = 0
span_to start (some b) = (block_end_offset b + u64_mod - start) % u64_mod

abbrev pub offset_span : List StreamDataBlock → ℕ
offset_span blocks = span_to (first_start blocks) (last blocks)

-- A group of one block, or one below the limits.
abbrev pub IsLimited : ℕ → List StreamDataBlock → Type 0
IsLimited threshold blocks =
    (length blocks ≡ 1)
    ⊎ ((sizes blocks < threshold)
        × (record_counts blocks ≤ i32_max)
        × (offset_span blocks ≤ i32_max))

abbrev pub LimitedRow : ℕ → List StreamDataBlock → Type 0
LimitedRow threshold blocks = Adjoin blocks × IsLimited threshold blocks

-- What the limit predicate knows of the group in hand.
record Counted (threshold : ℕ) (s : GroupByLimitPredicate) (curr : List StreamDataBlock)
    : Type 0 where
  p : StreamDataBlock
  at_end : last curr ≡ some p
  limited : LimitedRow threshold curr
  stream : s.stream ≡ pos (stream_id p)
  first : s.first_offset ≡ first_start curr
  next : s.next_start_offset ≡ block_end_offset p
  size : s.total_size ≡ sizes curr
  records : s.record_cnt ≡ record_counts curr
  small : (sizes curr < 2 ^ 63) × (record_counts curr < 2 ^ 33)
  same : s.block_size_threshold ≡ threshold

module _ (threshold : ℕ) (low : threshold < 2 ^ 63) where
  test_limit-keeps :
      (s : GroupByLimitPredicate) (b c : StreamDataBlock) (bs : List StreamDataBlock)
      → BlockFits b
      → Counted threshold s (c ∷ bs)
      → (test_limit s b).0 ≡ true
      → Counted threshold (test_limit s b).1 ((c ∷ bs) ++ (b ∷ []))
  unfolding test_limit eqb_ℤ
  test_limit-keeps s b c bs k r h =
      let z = as_i64_small (stream_id b) k.0 in
      let more = sizes-append (c ∷ bs) (b ∷ []) in
      let counted = record_counts-append (c ∷ bs) (b ∷ []) in
      let size = add_u64 s.total_size (block_size b) in
      let count = add_u64 s.record_cnt b.index.record_count in
      elim (Bool-cases (limit_cuts s b)) [
        | inl e ↦ ground (arith, rw (e, r.stream) at h)
        | inr e ↦
            let e' = rw (r.stream, z) at e in
            let facts : (stream_id b ≡ stream_id r.p)
                × (start_offset b ≡ s.next_start_offset)
                × (size < s.block_size_threshold)
                × (count ≤ i32_max)
                × ((block_end_offset b + u64_mod - s.first_offset) % u64_mod ≤ i32_max) =
              (
                ground (arith, e'),
                ground (arith, e'),
                ground (arith, e'),
                ground (arith, e'),
                ground (arith, e'),
              ) in
            let within : (sizes ((c ∷ bs) ++ (b ∷ [])) < threshold)
                × (record_counts ((c ∷ bs) ++ (b ∷ [])) ≤ i32_max)
                × (offset_span ((c ∷ bs) ++ (b ∷ [])) ≤ i32_max) =
              (
                omega (arith, more, facts.2, r.size, r.small.0, k.1, r.same),
                omega (arith, counted, facts.3, r.records, r.small.1, k.2),
                rw (last-append (c ∷ bs) b, sym r.first) facts.4,
              ) in
            rw e (record {
              p = b;
              at_end = last-append (c ∷ bs) b;
              limited = (
                Adjoin-append (c ∷ bs) r.p b r.at_end (sym facts.0) (sym r.next ∙ sym facts.1)
                    r.limited.0,
                inr within,
              );
              stream = r.stream ∙ ap pos (sym facts.0);
              first = r.first;
              next = refl;
              size = omega (arith, more, r.size, r.small.0, k.1);
              records = omega (arith, counted, r.records, r.small.1, k.2);
              small = (omega (arith, within.0, low), omega (arith, within.1));
              same = r.same;
            })
      ]

  begun :
      (s : GroupByLimitPredicate) (b : StreamDataBlock)
      → BlockFits b
      → s.block_size_threshold ≡ threshold
      → Counted threshold (take_block b (restart b s)) (b ∷ [])
  begun s b k e = record {
    p = b;
    at_end = refl;
    limited = (tt, inl refl);
    stream = as_i64_small (stream_id b) k.0;
    first = refl;
    next = refl;
    size = omega (arith, k.1);
    records = omega (arith, k.2);
    small = (omega (arith, k.1), omega (arith, k.2));
    same = e;
  }

  test_limit-begins :
      (s : GroupByLimitPredicate) (b c : StreamDataBlock) (bs : List StreamDataBlock)
      → BlockFits b
      → Counted threshold s (c ∷ bs)
      → (test_limit s b).0 ≡ false
      → Counted threshold (test_limit s b).1 (b ∷ [])
  unfolding test_limit
  test_limit-begins s b c bs k r h = elim (Bool-cases (limit_cuts s b)) [
    | inl e ↦ rw e (begun s b k r.same)
    | inr e ↦ ground (arith, rw e at h)
  ]

-- On blocks of streams below 2^63 whose sizes and record counts are words of 32 bits, and a threshold below 2^63: the
-- groups that the limit predicate cuts hold all blocks, one after another, each is a row of adjoining blocks of one stream,
-- and a group of more than one block is smaller than the threshold, holds at most 2^31 - 1 records, and spans at most
-- 2^31 - 1 offsets from the start of its first block to the end of its last one, as a difference of words of 64 bits.
pub limit_groups :
    (threshold : ℕ) (blocks : List StreamDataBlock)
    → threshold < 2 ^ 63
    → EachFits blocks
    → (ungroup (group_stream_data_blocks test_limit (new_limit threshold) blocks) ≡ blocks)
      × EachGroup
          (LimitedRow threshold)
          (group_stream_data_blocks test_limit (new_limit threshold) blocks)
unfolding group_stream_data_blocks group_from test_limit eqb_ℤ
limit_groups threshold [] low k = (refl, tt)
limit_groups threshold (b ∷ blocks) low k =
    group_from-Grouped test_limit BlockFits (Counted threshold) (LimitedRow threshold)
      (λ s curr r. r.limited) (test_limit-keeps threshold low) (test_limit-begins threshold low)
      (test_limit (new_limit threshold) b).1 b [] blocks
      (begun threshold low (new_limit threshold) b k.0 refl) k.1

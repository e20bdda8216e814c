-- ===== src/Planner/Stages/Terminates.antt =====
-- The loop of the stages ends when every block fits the cache, and never ends on a block that does not.
use streamstack.Prelude.{
  ℕ, zero, suc, ◌+◌, ◌-◌, ◌*◌, ◌<◌, ◌≤◌, ◌≡◌, refl, ap, arith, true, Bool-cases, ◌⊎◌, inl, inr,
  Option, none, some, List, [], ◌∷◌, ◌++◌, length, take, drop, ltb, add_u64, u64_mod,
}
use streamstack.Planner.Block.{StreamDataBlock, block_size, sizes}
use streamstack.Planner.Builder.{CompactedObjectBuilder, total_block_size}
use streamstack.Planner.Objects.Split.{HaveTails}
use streamstack.Planner.Stages.{
  Stage, CompactionPlan, cut_offset, take_prefix, cut_stage, grow_stage, plan_step, last_plan,
  plan_loop, first_stage, generate_plan_with_cache_limit,
}
use streamstack.Planner.Stages.Weights.{
  weigh_builders, weigh_plans, weigh_stage, weigh_parts, weigh_plans-append, last_plan-weigh,
  plan_step-weigh, cut_prefix,
}
use streamstack.Planner.Entries.{weigh}
use streamstack.Planner.Stages.Bounded.{
  Fits, Overflows, AreWithin, tails, cut-Overflows, plan_step-Fits, last_plan-AreWithin,
}

-- Every block is at most the cache.
abbrev pub IsSmall : ℕ → List StreamDataBlock → Type 0
IsSmall cache [] = Unit
IsSmall cache (b ∷ blocks) = (block_size b ≤ cache) × IsSmall cache blocks

abbrev pub AreSmall : ℕ → List CompactedObjectBuilder → Type 0
AreSmall cache [] = Unit
AreSmall cache (b ∷ builders) = IsSmall cache b.blocks × AreSmall cache builders

abbrev pub one : StreamDataBlock → ℕ
one b = 1

abbrev pub opened : ℕ → ℕ
opened zero = 0
opened (suc n) = 1

-- What every round makes less.
abbrev pub measure : Stage → ℕ
measure s = 2 * weigh_builders one s.builders + 2 * length s.builders + opened s.total_size

IsSmall-drop : (cache n : ℕ) (l : List StreamDataBlock) → IsSmall cache l → IsSmall cache (drop n l)
IsSmall-drop cache zero l h = h
IsSmall-drop cache (suc n) [] h = tt
IsSmall-drop cache (suc n) (x ∷ l) h = IsSmall-drop cache n l h.1

first_small : (cache : ℕ) (l : List StreamDataBlock) → IsSmall cache l → sizes (take 1 l) ≤ cache
first_small cache [] h = omega arith
first_small cache (x ∷ l) h = omega (arith, h.0)

some_taken : (n : ℕ) (l : List StreamDataBlock) → 0 < n → 0 < length l → 1 ≤ weigh one (take n l)
some_taken zero l h k = absurd (omega arith)
some_taken (suc n) [] h k = absurd (omega arith)
some_taken (suc n) (x ∷ l) h k = omega arith

opened_iff : (n : ℕ) → 0 < n → opened n ≡ 1
opened_iff zero h = absurd (omega arith)
opened_iff (suc n) h = refl

opened_le : (n : ℕ) → opened n ≤ 1
opened_le zero = omega arith
opened_le (suc n) = omega arith

-- A cut at 0 closes a stage that is not empty; any other takes a block out of the builder.
cut_progress :
    (cache total cut : ℕ) (l : List StreamDataBlock)
    → IsSmall cache l
    → Overflows cache total l 0 cut
    → 2 * weigh one (drop cut l) + 1 ≤ 2 * weigh one l + opened total
cut_progress cache total zero l h o =
    let start : suc zero - zero ≡ suc zero = omega arith in
    omega (
      arith,
      weigh_parts one 0 l,
      opened_iff total
          (omega (arith, first_small cache l h, o.full, ap (λ k. sizes (take k l)) start)),
    )
cut_progress cache total (suc n) l h o =
    omega (
      arith,
      weigh_parts one (suc n) l,
      some_taken (suc n) l (omega arith) (omega (arith, o.inside)),
    )

module _ (cache : ℕ) (s : Stage) (b : CompactedObjectBuilder) (rest : List CompactedObjectBuilder)
    (e : s.builders ≡ b ∷ rest) (f : Fits cache s) where
  plan_step-measure : IsSmall cache b.blocks → measure (plan_step cache b rest s) < measure s
  unfolding plan_step cut_stage grow_stage
  plan_step-measure h = elim (Bool-cases (ltb cache (add_u64 s.total_size (total_block_size b)))) [
    | inl g ↦
        let cut = cut_offset cache s.total_size 0 b.blocks in
        let p = cut_prefix cache b s (tails cache s b rest e f).0 in
        rw (g, e)
          (omega (
            arith,
            ap (weigh one) p.left,
            cut_progress cache s.total_size cut b.blocks h (cut-Overflows cache s b rest e f g),
          ))
    | inr g ↦ rw (g, e) (omega (arith, opened_le (add_u64 s.total_size (total_block_size b))))
  ]

  plan_step-AreSmall :
      IsSmall cache b.blocks
      → AreSmall cache rest
      → AreSmall cache (plan_step cache b rest s).builders
  unfolding plan_step cut_stage grow_stage
  plan_step-AreSmall h k =
      elim (Bool-cases (ltb cache (add_u64 s.total_size (total_block_size b)))) [
        | inl g ↦
            let cut = cut_offset cache s.total_size 0 b.blocks in
            let left = (cut_prefix cache b s (tails cache s b rest e f).0).left in
            rw (g, left) (IsSmall-drop cache cut b.blocks h, k)
        | inr g ↦ rw g k
      ]

-- What the loop owes of a stage: it ends, every plan is within the cache, and no block is lost.
pub record Planned (cache : ℕ) (s : Stage) (result : Option (List CompactionPlan)) : Type 0 where
  pub plans : List CompactionPlan
  pub ends : result ≡ some plans
  pub within : AreWithin cache plans
  pub whole : (w : StreamDataBlock → ℕ) → weigh_plans w plans ≡ weigh_stage w s

List-cases :
    (l : List CompactedObjectBuilder)
    → (l ≡ [])
      ⊎ ((b : CompactedObjectBuilder) × (rest : List CompactedObjectBuilder) × (l ≡ b ∷ rest))
List-cases [] = inl refl
List-cases (b ∷ rest) = inr (b, rest, refl)

plan_loop-Planned :
    (cache fuel : ℕ) (s : Stage)
    → Fits cache s
    → AreSmall cache s.builders
    → measure s < fuel
    → Planned cache s (plan_loop cache fuel s)
unfolding plan_loop
plan_loop-Planned cache zero s f k l = absurd (omega arith)
plan_loop-Planned cache (suc fuel) s f k l = elim (List-cases s.builders) [
  | inl e ↦
      rw (e, plan_loop)
        (record {
          plans = s.plans ++ last_plan s.next_order s.objects s.stream_set_builder;
          ends = refl;
          within = last_plan-AreWithin cache s f;
          whole = λ w. omega (
            arith,
            weigh_plans-append w s.plans (last_plan s.next_order s.objects s.stream_set_builder),
            last_plan-weigh w s.next_order s.objects s.stream_set_builder,
            ap (weigh_builders w) e,
          );
        })
  | inr (b, rest, e) ↦
      let small : IsSmall cache b.blocks × AreSmall cache rest = rw e at k in
      let ih =
        plan_loop-Planned cache fuel (plan_step cache b rest s) (plan_step-Fits cache s b rest e f)
          (plan_step-AreSmall cache s b rest e f small.0 small.1)
          (omega (arith, plan_step-measure cache s b rest e f small.0)) in
      rw (e, plan_loop)
        (record {
          plans = ih.plans;
          ends = ih.ends;
          within = ih.within;
          whole = λ w. omega (
            arith,
            ih.whole w,
            plan_step-weigh cache b rest s w (tails cache s b rest e f).0,
            ap (weigh_builders w) e,
          );
        })
]

-- On builders whose windows end behind their blocks, whose sizes sum to less than 2^64 and
-- of which no block is larger than the cache: the loop ends within 2 rounds for each block and each builder, every stage
-- reads at most what the cache holds, and the stages hold together exactly the blocks of the builders, counted by any weight.
pub generate_plan_with_cache_limit-Planned :
    (cache : ℕ) (builders : List CompactedObjectBuilder)
    → HaveTails builders
    → AreSmall cache builders
    → weigh_builders block_size builders < u64_mod
    → Planned cache (first_stage builders) (
        generate_plan_with_cache_limit
          (2 * weigh_builders one builders + 2 * length builders + 1)
          cache
          builders)
unfolding generate_plan_with_cache_limit
generate_plan_with_cache_limit-Planned cache builders t k l =
    plan_loop-Planned cache (2 * weigh_builders one builders + 2 * length builders + 1)
      (first_stage builders)
      (record { tails = t; small = omega arith; closed = tt; counted = refl; within = omega arith })
      k (omega arith)

oversized_stage :
    (cache fuel : ℕ) (s : Stage) (b : CompactedObjectBuilder) (rest : List CompactedObjectBuilder)
    (x : StreamDataBlock) (l : List StreamDataBlock)
    → s.builders ≡ b ∷ rest
    → s.total_size ≡ 0
    → b.blocks ≡ x ∷ l
    → cache < block_size x
    → sizes (x ∷ l) < u64_mod
    → plan_loop cache fuel s ≡ none
unfolding plan_loop plan_step cut_stage take_prefix
oversized_stage cache zero s b rest x l e z q big small = refl
oversized_stage cache (suc fuel) s b rest x l e z q big small =
    let total = ap sizes q in
    let over : ltb cache (add_u64 s.total_size (total_block_size b)) ≡ true =
      ground (arith, total, z) in
    let first : ltb cache (add_u64 0 (block_size x)) ≡ true = ground arith in
    let at_once : cut_offset cache s.total_size 0 b.blocks ≡ 0 = rw (z, q, first) refl in
    rw (e, plan_loop)
      (oversized_stage cache fuel (plan_step cache b rest s) b rest x l (rw (over, at_once) refl)
        (rw over refl) q big small)

-- Where the first builder begins with a block larger than the cache, and the sizes of its blocks add up to less than
-- 2^64, nothing is ever planned: whatever the number of rounds, the loop has not ended, since each round cuts before the
-- block and closes an empty stage.
pub oversized_block_never_planned :
    (cache fuel : ℕ) (b : CompactedObjectBuilder) (rest : List CompactedObjectBuilder)
    (x : StreamDataBlock) (l : List StreamDataBlock)
    → b.blocks ≡ x ∷ l
    → cache < block_size x
    → sizes (x ∷ l) < u64_mod
    → generate_plan_with_cache_limit fuel cache (b ∷ rest) ≡ none
unfolding generate_plan_with_cache_limit
oversized_block_never_planned cache fuel b rest x l q big small =
    oversized_stage cache fuel (first_stage (b ∷ rest)) b rest x l refl refl q big small

-- ===== src/Planner/Stages/Whole.antt =====
-- From the sorted blocks to the stages: `compact_objects` and `generate_plan_with_cache_limit` in a row.
use streamstack.Prelude.{
  ℕ, ◌+◌, ◌*◌, ◌<◌, ◌≡◌, refl, ap, ◌∙◌, arith, some, List, [], ◌∷◌, ◌++◌, length, u64_mod,
}
use streamstack.Planner.Block.{StreamDataBlock, block_size, sizes}
use streamstack.Planner.Builder.{CompactedObjectBuilder}
use streamstack.Planner.Objects.{compact_objects}
use streamstack.Planner.Objects.Conserved.{compact_objects-Cut}
use streamstack.Planner.Objects.Split.{all_blocks, Ordered, Solid}
use streamstack.Planner.Stages.{CompactionPlan, generate_plan_with_cache_limit}
use streamstack.Planner.Stages.Weights.{weigh_builders, weigh_plans}
use streamstack.Planner.Entries.{weigh, weigh-append}
use streamstack.Planner.Stages.Bounded.{AreWithin, sizes-weigh}
use streamstack.Planner.Stages.Terminates.{
  IsSmall, AreSmall, one, generate_plan_with_cache_limit-Planned,
}

weigh_all :
    (w : StreamDataBlock → ℕ) (builders : List CompactedObjectBuilder)
    → weigh_builders w builders ≡ weigh w (all_blocks builders)
weigh_all w [] = refl
weigh_all w (b ∷ builders) =
    omega (arith, weigh_all w builders, weigh-append w b.blocks (all_blocks builders))

IsSmall-left : (cache : ℕ) (a b : List StreamDataBlock) → IsSmall cache (a ++ b) → IsSmall cache a
IsSmall-left cache [] b h = tt
IsSmall-left cache (x ∷ a) b h = (h.0, IsSmall-left cache a b h.1)

IsSmall-right : (cache : ℕ) (a b : List StreamDataBlock) → IsSmall cache (a ++ b) → IsSmall cache b
IsSmall-right cache [] b h = h
IsSmall-right cache (x ∷ a) b h = IsSmall-right cache a b h.1

AreSmall-all :
    (cache : ℕ) (builders : List CompactedObjectBuilder)
    → IsSmall cache (all_blocks builders)
    → AreSmall cache builders
AreSmall-all cache [] h = tt
AreSmall-all cache (b ∷ builders) h = (
  IsSmall-left cache b.blocks (all_blocks builders) h,
  AreSmall-all cache builders (IsSmall-right cache b.blocks (all_blocks builders) h),
)

-- A round of compaction over sorted blocks.
pub record Compacted (split_size cache : ℕ) (blocks : List StreamDataBlock) : Type 0 where
  pub builders : List CompactedObjectBuilder
  pub fuel : ℕ
  pub plans : List CompactionPlan
  pub cuts : compact_objects split_size blocks ≡ some builders
  pub ends : generate_plan_with_cache_limit fuel cache builders ≡ some plans
  pub within : AreWithin cache plans
  pub whole : (w : StreamDataBlock → ℕ) → weigh_plans w plans ≡ weigh w blocks

-- On blocks none of which is empty or larger than the cache, which are sorted so that the blocks of one stream do not
-- overlap, and whose sizes sum to less than 2^64: the planner cuts them into output objects and these into stages, it ends,
-- every stage reads at most what the cache holds, and every block is in the stages exactly as often as it went in, since
-- any weight of the blocks sums to the same.
pub sorted_blocks_planned :
    (split_size cache : ℕ) (blocks : List StreamDataBlock)
    → Ordered blocks
    → Solid blocks
    → IsSmall cache blocks
    → sizes blocks < u64_mod
    → Compacted split_size cache blocks
sorted_blocks_planned split_size cache blocks o s k l =
    let c = compact_objects-Cut split_size blocks o s l in
    let same = λ (w : StreamDataBlock → ℕ). weigh_all w c.builders ∙ ap (weigh w) c.whole in
    let p =
      generate_plan_with_cache_limit-Planned cache c.builders c.tails
        (AreSmall-all cache c.builders (rw c.whole k))
        (omega (arith, same block_size, sizes-weigh blocks)) in
    record {
      builders = c.builders;
      fuel = 2 * weigh_builders one c.builders + 2 * length c.builders + 1;
      plans = p.plans;
      cuts = c.succeeds;
      ends = p.ends;
      within = p.within;
      whole = λ w. omega (arith, p.whole w, same w);
    }

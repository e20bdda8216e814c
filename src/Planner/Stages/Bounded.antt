-- ===== src/Planner/Stages/Bounded.antt =====
-- No stage reads more than the cache holds.
use streamstack.Prelude.{
  ℕ, zero, suc, ◌+◌, ◌-◌, ◌<◌, ◌≤◌, ◌≡◌, refl, ap, arith, true, false, Bool-cases, inl, inr, Option,
  none, some, List, [], ◌∷◌, ◌++◌, length, take, ltb, add_u64, u64_mod,
}
use streamstack.Planner.Block.{StreamDataBlock, block_size, sizes, CompactedObject}
use streamstack.Planner.Builder.{CompactedObjectBuilder, total_block_size}
use streamstack.Planner.Objects.Split.{HasTail, HaveTails}
use streamstack.Planner.Stages.{
  Stage, CompactionPlan, cut_offset, take_prefix, cut_stage, grow_stage, plan_step, last_plan,
}
use streamstack.Planner.Stages.Weights.{
  weigh_objects, weigh_taken, weigh_builders, weigh_stage, cut_prefix, generate_plan-weigh,
  add_or_merge-weigh, plan_step-weigh,
}
use streamstack.Planner.Entries.{weigh}

pub sizes-weigh : (l : List StreamDataBlock) → sizes l ≡ weigh block_size l
sizes-weigh [] = refl
sizes-weigh (x ∷ l) = omega (arith, sizes-weigh l)

-- Where the blocks do not fit, the cut stands before the first block that does not.
pub record Overflows (cache tmp : ℕ) (l : List StreamDataBlock) (j cut : ℕ) : Type 0 where
  pub from : j ≤ cut
  pub inside : cut < j + length l
  pub fits : tmp + sizes (take (cut - j) l) ≤ cache
  pub full : cache < tmp + sizes (take (suc cut - j) l)

pub cut_offset-Overflows :
    (cache tmp j : ℕ) (l : List StreamDataBlock)
    → tmp ≤ cache
    → cache < tmp + sizes l
    → tmp + sizes l < u64_mod
    → Overflows cache tmp l j (cut_offset cache tmp j l)
cut_offset-Overflows cache tmp j [] a b c = absurd (omega arith)
cut_offset-Overflows cache tmp j (x ∷ l) a b c =
    elim (Bool-cases (ltb cache (add_u64 tmp (block_size x)))) [
      | inl g ↦
          let one : suc j - j ≡ suc zero = omega arith in
          let none_yet : j - j ≡ zero = omega arith in
          rw g (record {
            from = omega arith;
            inside = omega arith;
            fits = rw none_yet (omega arith);
            full = rw one (ground (arith, g));
          })
      | inr g ↦
          let more =
            cut_offset-Overflows cache (add_u64 tmp (block_size x)) (suc j) l (ground (arith, g))
              (omega arith) (omega arith) in
          let cut = cut_offset cache (add_u64 tmp (block_size x)) (suc j) l in
          let before : cut - j ≡ suc (cut - suc j) = omega (arith, more.from) in
          let behind : suc cut - j ≡ suc (suc cut - suc j) = omega (arith, more.from) in
          let sum : add_u64 tmp (block_size x) ≡ tmp + block_size x = omega arith in
          rw g (record {
            from = omega (arith, more.from);
            inside = omega (arith, more.inside);
            fits = rw before (omega (arith, more.fits, sum));
            full = rw behind (omega (arith, more.full, sum));
          })
    ]

abbrev pub AreWithin : ℕ → List CompactionPlan → Type 0
AreWithin cache [] = Unit
AreWithin cache (p ∷ plans) =
    (weigh_objects block_size p.compacted_objects ≤ cache) × AreWithin cache plans

AreWithin-append :
    (cache : ℕ) (a b : List CompactionPlan)
    → AreWithin cache a
    → AreWithin cache b
    → AreWithin cache (a ++ b)
AreWithin-append cache [] b h k = k
AreWithin-append cache (x ∷ a) b h k = (h.0, AreWithin-append cache a b h.1 k)

-- The invariant of the loop: the closed stages are within the cache, and `total_size` is what the open one holds.
pub record Fits (cache : ℕ) (s : Stage) : Type 0 where
  pub tails : HaveTails s.builders
  pub small : weigh_stage block_size s < u64_mod
  pub closed : AreWithin cache s.plans
  pub counted : weigh_taken block_size (s.objects, s.stream_set_builder) ≡ s.total_size
  pub within : s.total_size ≤ cache

module _ (cache : ℕ) (s : Stage) (b : CompactedObjectBuilder) (rest : List CompactedObjectBuilder)
    (e : s.builders ≡ b ∷ rest) (f : Fits cache s) where
  pub tails : HasTail b × HaveTails rest
  tails = rw e at f.tails

  weight : (w : StreamDataBlock → ℕ) → weigh_stage w (plan_step cache b rest s) ≡ weigh_stage w s
  weight w = omega (arith, plan_step-weigh cache b rest s w tails.0, ap (weigh_builders w) e)

  -- What the sum of a round comes to, before it wraps.
  no_wrap : s.total_size + sizes b.blocks < u64_mod
  no_wrap =
      omega (arith, f.small, f.counted, ap (weigh_builders block_size) e, sizes-weigh b.blocks)

  pub cut-Overflows :
      ltb cache (add_u64 s.total_size (total_block_size b)) ≡ true
      → Overflows cache s.total_size b.blocks 0 (cut_offset cache s.total_size 0 b.blocks)
  cut-Overflows g =
      cut_offset-Overflows cache s.total_size 0 b.blocks f.within (ground (arith, g, no_wrap))
        no_wrap

  cut_stage-Fits :
      ltb cache (add_u64 s.total_size (total_block_size b)) ≡ true
      → Fits cache (plan_step cache b rest s)
  unfolding plan_step cut_stage
  cut_stage-Fits g =
      let cut = cut_offset cache s.total_size 0 b.blocks in
      let p = cut_prefix cache b s tails.0 in
      let out = (take_prefix cut b s.objects s.stream_set_builder).1 in
      let over = cut-Overflows g in
      let low : cut - 0 ≡ cut = omega arith in
      let small = weight block_size in
      rw g (record {
        tails = (p.tail, tails.1);
        small = omega (arith, f.small, rw (plan_step, g) at small);
        closed = AreWithin-append cache s.plans _ f.closed (
          omega (
            arith,
            generate_plan-weigh block_size s.next_order out.0 out.1,
            p.taken block_size,
            f.counted,
            over.fits,
            ap (λ k. sizes (take k b.blocks)) low,
            sizes-weigh (take cut b.blocks),
          ),
          tt,
        );
        counted = refl;
        within = omega arith;
      })

  grow_stage-Fits :
      ltb cache (add_u64 s.total_size (total_block_size b)) ≡ false
      → Fits cache (plan_step cache b rest s)
  unfolding plan_step grow_stage
  grow_stage-Fits g =
      let small = weight block_size in
      rw g (record {
        tails = tails.1;
        small = omega (arith, f.small, rw (plan_step, g) at small);
        closed = f.closed;
        counted = omega (
          arith,
          add_or_merge-weigh block_size b s.objects s.stream_set_builder,
          f.counted,
          sizes-weigh b.blocks,
          no_wrap,
        );
        within = ground (arith, g);
      })

  pub plan_step-Fits : Fits cache (plan_step cache b rest s)
  plan_step-Fits = elim (Bool-cases (ltb cache (add_u64 s.total_size (total_block_size b)))) [
    | inl g ↦ cut_stage-Fits g
    | inr g ↦ grow_stage-Fits g
  ]

pub last_plan-AreWithin :
    (cache : ℕ) (s : Stage)
    → Fits cache s
    → AreWithin cache (s.plans ++ last_plan s.next_order s.objects s.stream_set_builder)
last_plan-AreWithin cache s f =
    AreWithin-append cache s.plans _ f.closed
      (last s.next_order s.objects s.stream_set_builder (omega (arith, f.counted, f.within)))
  where
    last :
        (o : ℕ) (objects : List CompactedObject) (t : Option CompactedObjectBuilder)
        → weigh_taken block_size (objects, t) ≤ cache
        → AreWithin cache (last_plan o objects t)
    last o [] none h = tt
    last o (x ∷ objects) none h =
        (omega (arith, h, generate_plan-weigh block_size o (x ∷ objects) none), tt)
    last o [] (some t) h = (omega (arith, h, generate_plan-weigh block_size o [] (some t)), tt)
    last o (x ∷ objects) (some t) h =
        (omega (arith, h, generate_plan-weigh block_size o (x ∷ objects) (some t)), tt)

-- ===== src/Planner/Stages/Weights.antt =====
-- What the blocks of the stages weigh, under any weight of a block, and that no round changes it.
use streamstack.Prelude.{
  ℕ, zero, suc, ◌+◌, ◌-◌, ◌≤◌, pos, ◌≡◌, refl, sym, ap, ◌∙◌, arith, false, Bool-cases, ◌⊎◌, inl,
  inr, Option, none, some, List, [], ◌∷◌, ◌++◌, length, take, drop, ltb, ◌==◌, add_u64,
}
use streamstack.Planner.Block.{
  StreamDataBlock, block_size, CompactionType, split, compact, CompactedObject,
}
use streamstack.Planner.Entries.{weigh, weigh-append}
use streamstack.Planner.Builder.{
  CompactedObjectBuilder, split_range, reset_curr_stream_position, total_block_size, merge, build,
}
use streamstack.Planner.Builder.Window.{take-drop, split_range-parts}
use streamstack.Planner.Objects.Split.{HasTail, HaveTails, run_tail_some, split_range-HaveTails}
use streamstack.Planner.Stages.{
  Stage, CompactionPlan, with_builder, generate_plan, target_of, add_or_merge, cut_offset,
  take_prefix, cut_stage, grow_stage, plan_step, last_plan,
}

abbrev pub weigh_objects : (StreamDataBlock → ℕ) → List CompactedObject → ℕ
weigh_objects w [] = 0
weigh_objects w (o ∷ objects) = weigh w o.blocks + weigh_objects w objects

abbrev pub weigh_option : (StreamDataBlock → ℕ) → Option CompactedObjectBuilder → ℕ
weigh_option w none = 0
weigh_option w (some b) = weigh w b.blocks

abbrev pub weigh_taken :
    (StreamDataBlock → ℕ) → List CompactedObject × Option CompactedObjectBuilder → ℕ
weigh_taken w (objects, b) = weigh_objects w objects + weigh_option w b

abbrev pub weigh_plans : (StreamDataBlock → ℕ) → List CompactionPlan → ℕ
weigh_plans w [] = 0
weigh_plans w (p ∷ plans) = weigh_objects w p.compacted_objects + weigh_plans w plans

abbrev pub weigh_builders : (StreamDataBlock → ℕ) → List CompactedObjectBuilder → ℕ
weigh_builders w [] = 0
weigh_builders w (b ∷ builders) = weigh w b.blocks + weigh_builders w builders

abbrev pub weigh_stage : (StreamDataBlock → ℕ) → Stage → ℕ
weigh_stage w s =
    weigh_plans w s.plans
    + weigh_taken w (s.objects, s.stream_set_builder)
    + weigh_builders w s.builders

CompactionType-cases : (c : CompactionType) → (c ≡ split) ⊎ (c ≡ compact)
CompactionType-cases split = inl refl
CompactionType-cases compact = inr refl

module _ (w : StreamDataBlock → ℕ) where
  pub weigh_objects-append :
      (a b : List CompactedObject)
      → weigh_objects w (a ++ b) ≡ weigh_objects w a + weigh_objects w b
  weigh_objects-append [] b = omega arith
  weigh_objects-append (x ∷ a) b = omega (arith, weigh_objects-append a b)

  pub weigh_plans-append :
      (a b : List CompactionPlan) → weigh_plans w (a ++ b) ≡ weigh_plans w a + weigh_plans w b
  weigh_plans-append [] b = omega arith
  weigh_plans-append (x ∷ a) b = omega (arith, weigh_plans-append a b)

  pub weigh_parts :
      (n : ℕ) (l : List StreamDataBlock) → weigh w (take n l) + weigh w (drop n l) ≡ weigh w l
  weigh_parts n l = sym (weigh-append w (take n l) (drop n l)) ∙ ap (weigh w) (take-drop n l)

  pub with_builder-weigh :
      (objects : List CompactedObject) (b : Option CompactedObjectBuilder)
      → weigh_objects w (with_builder objects b) ≡ weigh_taken w (objects, b)
  with_builder-weigh objects none = omega arith
  with_builder-weigh objects (some b) = omega (arith, weigh_objects-append objects (build b ∷ []))

  pub generate_plan-weigh :
      (order : ℕ) (objects : List CompactedObject) (b : Option CompactedObjectBuilder)
      → weigh_objects w (generate_plan order objects b).compacted_objects
        ≡ weigh_taken w (objects, b)
  unfolding generate_plan
  generate_plan-weigh order objects b = with_builder-weigh objects b

  pub last_plan-weigh :
      (order : ℕ) (objects : List CompactedObject) (b : Option CompactedObjectBuilder)
      → weigh_plans w (last_plan order objects b) ≡ weigh_taken w (objects, b)
  last_plan-weigh order [] none = refl
  last_plan-weigh order (o ∷ objects) none =
      omega (arith, generate_plan-weigh order (o ∷ objects) none)
  last_plan-weigh order [] (some b) = omega (arith, generate_plan-weigh order [] (some b))
  last_plan-weigh order (o ∷ objects) (some b) =
      omega (arith, generate_plan-weigh order (o ∷ objects) (some b))

  target_of-weigh :
      (b : Option CompactedObjectBuilder) → weigh w (target_of b).blocks ≡ weigh_option w b
  target_of-weigh none = refl
  target_of-weigh (some b) = refl

  pub add_or_merge-weigh :
      (b : CompactedObjectBuilder) (objects : List CompactedObject)
      (t : Option CompactedObjectBuilder)
      → weigh_taken w (add_or_merge b objects t) ≡ weigh_taken w (objects, t) + weigh w b.blocks
  unfolding add_or_merge merge reset_curr_stream_position
  add_or_merge-weigh b objects t = elim (CompactionType-cases b.compaction_type) [
    | inl e ↦
        simp (e, add_or_merge)
          (omega (
            arith,
            weigh_objects-append objects
                (record { compaction_type = split; blocks = b.blocks } ∷ []),
          ))
    | inr e ↦
        simp (e, add_or_merge, merge)
          (omega (arith, weigh-append w (target_of t).blocks b.blocks, target_of-weigh t))
  ]

pub cut_offset-length :
    (cache tmp j : ℕ) (l : List StreamDataBlock) → cut_offset cache tmp j l ≤ j + length l
cut_offset-length cache tmp j [] = omega arith
cut_offset-length cache tmp j (b ∷ l) = elim (Bool-cases (ltb cache (add_u64 tmp (block_size b)))) [
  | inl g ↦ rw g (omega arith)
  | inr g ↦ rw g (omega (arith, cut_offset-length cache (add_u64 tmp (block_size b)) (suc j) l))
]

-- What a cut leaves in the builder, and what it hands to the stage.
pub record Prefix (cut : ℕ) (b : CompactedObjectBuilder) (objects : List CompactedObject)
    (t : Option CompactedObjectBuilder) : Type 0 where
  pub left : (take_prefix cut b objects t).0.blocks ≡ drop cut b.blocks
  pub taken :
      (w : StreamDataBlock → ℕ)
      → weigh_taken w (take_prefix cut b objects t).1
        ≡ weigh_taken w (objects, t) + weigh w (take cut b.blocks)
  pub tail : HasTail (take_prefix cut b objects t).0

pub take_prefix-Prefix :
    (cut : ℕ) (b : CompactedObjectBuilder) (objects : List CompactedObject)
    (t : Option CompactedObjectBuilder)
    → cut ≤ length b.blocks
    → HasTail b
    → Prefix cut b objects t
unfolding take_prefix
take_prefix-Prefix zero b objects t l h = record { left = refl; taken = λ w. omega arith; tail = h }
take_prefix-Prefix (suc n) b objects t l h =
    let parts = split_range-parts b 0 (suc n) (h ∙ run_tail_some b.blocks (omega arith)) l in
    let cuts : (suc n == 0) ≡ false = ground arith in
    let whole : suc n - 0 ≡ suc n = omega arith in
    record {
      left = rw cuts (parts.1);
      taken = λ w. rw cuts (
          add_or_merge-weigh w (split_range b (pos 0) (pos (suc n))).0 objects t
          ∙ ap (λ x. weigh_taken w (objects, t) + weigh w x)
              (parts.0 ∙ ap (λ k. take k b.blocks) whole));
      tail = rw cuts (split_range-HaveTails b (pos 0) (pos (suc n)) h).1;
    }

pub cut_prefix :
    (cache : ℕ) (b : CompactedObjectBuilder) (s : Stage)
    → HasTail b
    → Prefix (cut_offset cache s.total_size 0 b.blocks) b s.objects s.stream_set_builder
cut_prefix cache b s h =
    take_prefix-Prefix (cut_offset cache s.total_size 0 b.blocks) b s.objects s.stream_set_builder
      (omega (arith, cut_offset-length cache s.total_size 0 b.blocks)) h

-- A round changes what the stages and the builders weigh together by nothing.
pub plan_step-weigh :
    (cache : ℕ) (b : CompactedObjectBuilder) (rest : List CompactedObjectBuilder) (s : Stage)
    (w : StreamDataBlock → ℕ)
    → HasTail b
    → weigh_stage w (plan_step cache b rest s)
      ≡ weigh_plans w s.plans
        + weigh_taken w (s.objects, s.stream_set_builder)
        + (weigh w b.blocks + weigh_builders w rest)
unfolding plan_step cut_stage grow_stage
plan_step-weigh cache b rest s w h =
    elim (Bool-cases (ltb cache (add_u64 s.total_size (total_block_size b)))) [
      | inl g ↦
          let cut = cut_offset cache s.total_size 0 b.blocks in
          let p = cut_prefix cache b s h in
          let out = (take_prefix cut b s.objects s.stream_set_builder).1 in
          rw g (
            omega (
              arith,
              p.taken w,
              ap (weigh w) p.left,
              weigh_parts w cut b.blocks,
              weigh_plans-append w s.plans (generate_plan s.next_order out.0 out.1 ∷ []),
              generate_plan-weigh w s.next_order out.0 out.1,
            ))
      | inr g ↦ rw g (omega (arith, add_or_merge-weigh w b s.objects s.stream_set_builder))
    ]

pub plan_step-HaveTails :
    (cache : ℕ) (b : CompactedObjectBuilder) (rest : List CompactedObjectBuilder) (s : Stage)
    → HasTail b
    → HaveTails rest
    → HaveTails (plan_step cache b rest s).builders
unfolding plan_step cut_stage grow_stage
plan_step-HaveTails cache b rest s h t =
    elim (Bool-cases (ltb cache (add_u64 s.total_size (total_block_size b)))) [
      | inl g ↦ rw g ((cut_prefix cache b s h).tail, t)
      | inr g ↦ rw g t
    ]

-- ===== src/Planner/Stages.antt =====
-- `generate_plan_with_cache_limit`: the planned objects cut into stages that fit the cache.
pub mod Weights
pub mod Bounded
pub mod Reads
pub mod Terminates
pub mod Whole
use streamstack.Prelude.{
  ℕ, zero, suc, ◌+◌, ◌%◌, ◌^◌, pos, Bool, true, false, Option, none, some, List, [], ◌∷◌, ◌++◌, ltb,
  ◌==◌, if◌then◌else◌, add_u64,
}
use streamstack.Planner.Block.{
  StreamDataBlock, block_size, block_start_position, CompactionType, split, compact,
  CompactedObject,
}
use streamstack.Planner.Entries.{Entries, push_all, sort_entries}
use streamstack.Planner.Builder.{
  CompactedObjectBuilder, new_builder, split_range, total_block_size, merge, build,
}

-- A stage. The map from an object to the blocks to read of it is a list in the order of the keys.
pub record CompactionPlan : Type 0 where
  pub order : ℕ
  pub compacted_objects : List CompactedObject
  pub stream_data_blocks_map : Entries

-- The blocks of the objects, one after another.
abbrev pub object_blocks : List CompactedObject → List StreamDataBlock
object_blocks [] = []
object_blocks (o ∷ objects) = o.blocks ++ object_blocks objects

abbrev pub with_builder :
    List CompactedObject → Option CompactedObjectBuilder → List CompactedObject
with_builder objects none = objects
with_builder objects (some builder) = objects ++ (build builder ∷ [])

unfoldable pub generate_plan :
    ℕ → List CompactedObject → Option CompactedObjectBuilder → CompactionPlan
generate_plan order objects stream_set_builder = record {
  order = order;
  compacted_objects = with_builder objects stream_set_builder;
  stream_data_blocks_map =
      sort_entries block_start_position
        (push_all (λ b. b.object_id) (object_blocks (with_builder objects stream_set_builder)) []);
}

abbrev pub target_of : Option CompactedObjectBuilder → CompactedObjectBuilder
target_of none = new_builder
target_of (some builder) = builder

unfoldable pub add_or_merge :
    CompactedObjectBuilder
    → List CompactedObject
    → Option CompactedObjectBuilder
    → List CompactedObject × Option CompactedObjectBuilder
add_or_merge builder objects stream_set_builder = elim builder.compaction_type [
  | split ↦ (objects ++ (build builder ∷ []), stream_set_builder)
  | compact ↦ (objects, some (merge (target_of stream_set_builder) builder))
]

-- The position of the first block that does not fit, 0 when there is none.
abbrev pub cut_offset : ℕ → ℕ → ℕ → List StreamDataBlock → ℕ
cut_offset cache tmp_size j [] = 0
cut_offset cache tmp_size j (b ∷ blocks) =
    let rest = cut_offset cache (add_u64 tmp_size (block_size b)) (suc j) blocks in
    if ltb cache (add_u64 tmp_size (block_size b)) then j else rest

-- The variables of the loop; `builders` are those from position `i` on.
pub record Stage : Type 0 where
  pub builders : List CompactedObjectBuilder
  pub objects : List CompactedObject
  pub stream_set_builder : Option CompactedObjectBuilder
  pub total_size : ℕ
  pub next_order : ℕ
  pub plans : List CompactionPlan

-- The prefix before a cut goes to the stage; a cut at 0 changes nothing.
unfoldable pub take_prefix :
    ℕ
    → CompactedObjectBuilder
    → List CompactedObject
    → Option CompactedObjectBuilder
    → CompactedObjectBuilder × (List CompactedObject × Option CompactedObjectBuilder)
take_prefix cut builder objects stream_set_builder =
    if cut == 0
    then (builder, (objects, stream_set_builder))
    else (let (prefix, rest) = split_range builder (pos 0) (pos cut) in
        (rest, add_or_merge prefix objects stream_set_builder))

-- A round that closes a stage.
unfoldable pub cut_stage : ℕ → CompactedObjectBuilder → List CompactedObjectBuilder → Stage → Stage
cut_stage cache builder rest s =
    let (builder', taken) =
      take_prefix (cut_offset cache s.total_size 0 builder.blocks) builder s.objects
        s.stream_set_builder in
    record s {
      builders = builder' ∷ rest;
      objects = [];
      stream_set_builder = none;
      total_size = 0;
      next_order = (s.next_order + 1) % 2 ^ 32;
      plans = s.plans ++ (generate_plan s.next_order taken.0 taken.1 ∷ []);
    }

-- A round that takes a whole builder into the stage.
unfoldable pub grow_stage : CompactedObjectBuilder → List CompactedObjectBuilder → Stage → Stage
grow_stage builder rest s =
    let taken = add_or_merge builder s.objects s.stream_set_builder in
    record s {
      builders = rest;
      objects = taken.0;
      stream_set_builder = taken.1;
      total_size = add_u64 s.total_size (total_block_size builder);
    }

unfoldable pub plan_step : ℕ → CompactedObjectBuilder → List CompactedObjectBuilder → Stage → Stage
plan_step cache builder rest s =
    if ltb cache (add_u64 s.total_size (total_block_size builder))
    then cut_stage cache builder rest s
    else grow_stage builder rest s

-- What stands behind the loop: the last stage, unless it has no object.
abbrev pub last_plan :
    ℕ → List CompactedObject → Option CompactedObjectBuilder → List CompactionPlan
last_plan order [] none = []
last_plan order (o ∷ objects) none = generate_plan order (o ∷ objects) none ∷ []
last_plan order objects (some builder) = generate_plan order objects (some builder) ∷ []

unfoldable pub plan_loop : ℕ → ℕ → Stage → Option (List CompactionPlan)
plan_loop cache zero s = none
plan_loop cache (suc fuel) s = elim s.builders [
  | [] ↦ some (s.plans ++ last_plan s.next_order s.objects s.stream_set_builder)
  | builder ∷ rest ↦ plan_loop cache fuel (plan_step cache builder rest s)
]

abbrev pub first_stage : List CompactedObjectBuilder → Stage
first_stage builders = record {
  builders = builders;
  objects = [];
  stream_set_builder = none;
  total_size = 0;
  next_order = 0;
  plans = [];
}

-- The fuel is a bound on the rounds.
unfoldable pub generate_plan_with_cache_limit :
    ℕ → ℕ → List CompactedObjectBuilder → Option (List CompactionPlan)
generate_plan_with_cache_limit fuel cache builders = plan_loop cache fuel (first_stage builders)

-- ===== src/Planner/Selection/Analyze.antt =====
-- `group_object_with_limits` and `analyze`: rounds of planning, each on fewer objects than the one before.
use streamstack.Prelude.{
  ℕ, zero, suc, Bool, true, false, ◌||◌, Option, none, some, List, [], ◌∷◌, ◌++◌, length, ltb,
  if◌then◌else◌,
}
use streamstack.Planner.Block.{StreamDataBlock, split, compact}
use streamstack.Planner.Builder.{CompactedObjectBuilder}
use streamstack.Planner.Entries.{Entries}
use streamstack.Planner.Objects.{compact_objects}
use streamstack.Planner.Stages.{CompactionPlan, generate_plan_with_cache_limit}
use streamstack.Planner.Selection.{
  contains, CompactionStats, stats_of, add_objects_to_remove, sort_stream_range_positions,
  filter_blocks_to_compact,
}

pub record CompactionAnalyzer : Type 0 where
  pub compaction_cache_size : ℕ
  pub stream_split_size : ℕ
  pub max_stream_num_in_stream_set : ℕ
  pub max_stream_object_num : ℕ

abbrev pub retain_blocks : List ℕ → List StreamDataBlock → List StreamDataBlock
retain_blocks removed [] = []
retain_blocks removed (b ∷ blocks) =
    let rest = retain_blocks removed blocks in
    if contains b.object_id removed then rest else b ∷ rest

abbrev pub remove_objects : List ℕ → Entries → Entries
remove_objects removed [] = []
remove_objects removed ((key, blocks) ∷ entries) =
    let rest = remove_objects removed entries in
    if contains key removed then rest else (key, blocks) ∷ rest

-- The objects that a round leaves out, by the statistics of the one before; the first leaves out none.
abbrev pub to_remove :
    CompactionAnalyzer → List CompactedObjectBuilder → Option CompactionStats → List ℕ
to_remove a builders none = []
to_remove a builders (some stats) =
    if ltb a.max_stream_object_num stats.stream_object_num
    then add_objects_to_remove split builders stats
    else add_objects_to_remove compact builders stats

-- A round that must leave an object out and finds none gives up.
abbrev pub is_stuck : Option CompactionStats → List ℕ → Bool
is_stuck none removed = false
is_stuck (some stats) [] = true
is_stuck (some stats) (i ∷ removed) = false

abbrev pub over_limit : CompactionAnalyzer → CompactionStats → Bool
over_limit a stats =
    ltb a.max_stream_num_in_stream_set stats.stream_num_in_stream_set
    || ltb a.max_stream_object_num stats.stream_object_num

abbrev pub is_empty : Entries → Bool
is_empty [] = true
is_empty (e ∷ entries) = false

-- What the loop returns: the builders, if any, and the objects left out.
abbrev pub Grouped : Type 0
Grouped = Option (List CompactedObjectBuilder) × List ℕ

-- The loop; none stands for no fuel.
unfoldable pub group_loop :
    CompactionAnalyzer
    → ℕ
    → Entries
    → List StreamDataBlock
    → List CompactedObjectBuilder
    → Option CompactionStats
    → List ℕ
    → Option Grouped
group_loop a zero map sorted builders stats excluded = none
group_loop a (suc fuel) map sorted builders stats excluded =
    let removed = to_remove a builders stats in
    let sorted' = retain_blocks removed sorted in
    let map' = filter_blocks_to_compact (remove_objects removed map) in
    if is_stuck stats removed
    then some (none, excluded)
    else if is_empty map'
    then some (none, excluded ++ removed)
    else (elim (compact_objects a.stream_split_size sorted') [
      | none ↦ some (none, excluded ++ removed)
      | some builders' ↦
          let again =
            group_loop a fuel map' sorted' builders' (some (stats_of builders'))
              (excluded ++ removed) in
          if over_limit a (stats_of builders')
          then again
          else some (some builders', excluded ++ removed)
    ])

-- Each round but the first leaves a block out, so that many rounds are enough.
unfoldable pub group_object_with_limits : CompactionAnalyzer → Entries → List ℕ → Option Grouped
group_object_with_limits a map excluded =
    let sorted = sort_stream_range_positions map in
    group_loop a (suc (suc (length sorted))) map sorted [] none excluded

abbrev pub plan_grouped :
    CompactionAnalyzer → ℕ → Option Grouped → Option (List CompactionPlan × List ℕ)
plan_grouped a fuel none = none
plan_grouped a fuel (some (none, excluded)) = some ([], excluded)
plan_grouped a fuel (some (some builders, excluded)) =
    elim (generate_plan_with_cache_limit fuel a.compaction_cache_size builders) [
      | none ↦ none
      | some plans ↦ some (plans, excluded)
    ]

-- The plans and the objects left out; the fuel is for the loop of the stages.
unfoldable pub analyze :
    CompactionAnalyzer → ℕ → Entries → List ℕ → Option (List CompactionPlan × List ℕ)
analyze a fuel stream_data_block_map excluded =
    let map = filter_blocks_to_compact stream_data_block_map in
    if is_empty stream_data_block_map || is_empty map
    then some ([], excluded)
    else plan_grouped a fuel (group_object_with_limits a map excluded)

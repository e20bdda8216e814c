-- ===== src/Planner/Selection.antt =====
-- Which objects take part in a compaction: the blocks of the objects, the filter, and the choice of
-- the objects to leave out where the output is over a limit. A HashMap is a list of its entries, in
-- whatever order it is read in, and a set a list without duplicates.
pub mod Analyze
pub mod Ends
pub mod Order
pub mod Removed
pub mod Shared
pub mod Sharing
use streamstack.Prelude.{
  ℕ, zero, suc, ◌+◌, Bool, true, false, not, ◌&&◌, ◌||◌, Option, none, some, List, [], ◌∷◌, ◌++◌,
  length, ltb, ◌==◌, if◌then◌else◌,
}
use streamstack.Planner.Block.{
  StreamDataBlock, stream_id, start_offset, CompactionType, split, compact,
}
use streamstack.Planner.Builder.{CompactedObjectBuilder}
use streamstack.Planner.Entries.{Entries, push_all, sort_entries, values}

-- A set for each key.
abbrev pub Sets : Type 0
Sets = List (ℕ × List ℕ)

abbrev pub contains : ℕ → List ℕ → Bool
contains i [] = false
contains i (x ∷ ids) = (i == x) || contains i ids

abbrev pub insert_id : ℕ → List ℕ → List ℕ
insert_id i ids = if contains i ids then ids else i ∷ ids

-- `entry(key).or_default().insert(i)`
unfoldable pub insert_at : ℕ → ℕ → Sets → Sets
insert_at key i [] = (key, i ∷ []) ∷ []
insert_at key i ((k, ids) ∷ sets) =
    let rest = insert_at key i sets in
    if key == k then (k, insert_id i ids) ∷ sets else (k, ids) ∷ rest

unfoldable pub insert_all :
    (StreamDataBlock → ℕ) → (StreamDataBlock → ℕ) → List StreamDataBlock → Sets → Sets
insert_all key i [] sets = sets
insert_all key i (b ∷ blocks) sets = insert_all key i blocks (insert_at (key b) (i b) sets)

abbrev pub ids_of : (StreamDataBlock → ℕ) → List StreamDataBlock → List ℕ
ids_of i [] = []
ids_of i (b ∷ blocks) = insert_id (i b) (ids_of i blocks)

unfoldable pub sort_stream_range_positions : Entries → List StreamDataBlock
sort_stream_range_positions stream_data_block_map =
    values (sort_entries start_offset (push_all stream_id (values stream_data_block_map) []))

-- Whether an object is in a set of more than one.
unfoldable pub is_shared : ℕ → Sets → Bool
is_shared object_id [] = false
is_shared object_id ((k, ids) ∷ sets) =
    (ltb 1 (length ids) && contains object_id ids) || is_shared object_id sets

abbrev pub keep_shared : Sets → Entries → Entries
keep_shared sets [] = []
keep_shared sets ((object_id, blocks) ∷ entries) =
    let rest = keep_shared sets entries in
    if is_shared object_id sets then (object_id, blocks) ∷ rest else rest

unfoldable pub filter_blocks_to_compact : Entries → Entries
filter_blocks_to_compact stream_data_block_map =
    keep_shared (insert_all stream_id (λ b. b.object_id) (values stream_data_block_map) [])
      stream_data_block_map

pub record CompactionStats : Type 0 where
  pub stream_num_in_stream_set : ℕ
  pub stream_object_num : ℕ
  pub object_to_compacted_object_num : List (ℕ × ℕ)

-- `*entry(id).or_insert(0) += 1`
abbrev pub count_id : ℕ → List (ℕ × ℕ) → List (ℕ × ℕ)
count_id i [] = (i, 1) ∷ []
count_id i ((k, n) ∷ counts) =
    let rest = count_id i counts in if i == k then (k, n + 1) ∷ counts else (k, n) ∷ rest

abbrev pub count_ids : List ℕ → List (ℕ × ℕ) → List (ℕ × ℕ)
count_ids [] counts = counts
count_ids (i ∷ ids) counts = count_ids ids (count_id i counts)

abbrev pub unique_object_ids : CompactedObjectBuilder → List ℕ
unique_object_ids builder = ids_of (λ b. b.object_id) builder.blocks

abbrev pub total_stream_num : CompactedObjectBuilder → ℕ
total_stream_num builder = length (ids_of stream_id builder.blocks)

abbrev pub no_stats : CompactionStats
no_stats = record {
  stream_num_in_stream_set = 0;
  stream_object_num = 0;
  object_to_compacted_object_num = [];
}

abbrev pub some_blocks : List StreamDataBlock → ℕ
some_blocks [] = 0
some_blocks (b ∷ blocks) = 1

abbrev pub add_stats : CompactedObjectBuilder → CompactionStats → CompactionStats
add_stats builder stats =
    let counted = record stats {
      object_to_compacted_object_num =
          count_ids (unique_object_ids builder) stats.object_to_compacted_object_num;
    } in
    elim builder.compaction_type [
      | split ↦ record counted {
        stream_object_num = stats.stream_object_num + some_blocks builder.blocks;
      }
      | compact ↦ record counted {
        stream_num_in_stream_set = stats.stream_num_in_stream_set + total_stream_num builder;
      }
    ]

abbrev pub stats_from : CompactionStats → List CompactedObjectBuilder → CompactionStats
stats_from stats [] = stats
stats_from stats (b ∷ builders) = stats_from (add_stats b stats) builders

-- `CompactionStats::of`
unfoldable pub stats_of : List CompactedObjectBuilder → CompactionStats
stats_of builders = stats_from no_stats builders

abbrev pub count_of : ℕ → List (ℕ × ℕ) → ℕ
count_of i [] = 0
count_of i ((k, n) ∷ counts) = let rest = count_of i counts in if i == k then n else rest

abbrev pub sum_counts : List ℕ → List (ℕ × ℕ) → ℕ
sum_counts [] counts = 0
sum_counts (i ∷ ids) counts = count_of i counts + sum_counts ids counts

abbrev pub total_object_stats : CompactedObjectBuilder → List (ℕ × ℕ) → ℕ
total_object_stats builder counts = sum_counts (unique_object_ids builder) counts

abbrev pub is_type : CompactionType → CompactionType → Bool
is_type split split = true
is_type compact compact = true
is_type _ _ = false

abbrev pub of_type : CompactionType → List CompactedObjectBuilder → List CompactedObjectBuilder
of_type t [] = []
of_type t (b ∷ builders) =
    let rest = of_type t builders in if is_type b.compaction_type t then b ∷ rest else rest

-- Whether a builder sorts before another: by its blocks, then by its objects.
abbrev pub sorts_before : List (ℕ × ℕ) → CompactedObjectBuilder → CompactedObjectBuilder → Bool
sorts_before counts a b =
    ltb (length a.blocks) (length b.blocks)
    || ((length a.blocks == length b.blocks)
        && ltb (total_object_stats a counts) (total_object_stats b counts))

-- The first of the stable sort.
abbrev pub first_sorted :
    List (ℕ × ℕ) → CompactedObjectBuilder → List CompactedObjectBuilder → CompactedObjectBuilder
first_sorted counts best [] = best
first_sorted counts best (b ∷ builders) =
    first_sorted counts (if sorts_before counts b best then b else best) builders

abbrev pub blocks_of : List CompactedObjectBuilder → List StreamDataBlock
blocks_of [] = []
blocks_of (b ∷ builders) = b.blocks ++ blocks_of builders

abbrev pub set_of : ℕ → Sets → List ℕ
set_of key [] = []
set_of key ((k, ids) ∷ sets) = let rest = set_of key sets in if key == k then ids else rest

-- The streams of the objects of a stream, each object for itself.
abbrev pub dispersion : Sets → List ℕ → ℕ
dispersion object_stream_ids [] = 0
dispersion object_stream_ids (i ∷ ids) =
    length (set_of i object_stream_ids) + dispersion object_stream_ids ids

-- The set of the least dispersion, of several that of the least stream.
abbrev pub least_set : Sets → ℕ → ℕ → List ℕ → Sets → List ℕ
least_set object_stream_ids best_dispersion best_stream best [] = best
least_set object_stream_ids best_dispersion best_stream best ((stream, ids) ∷ sets) =
    let d = dispersion object_stream_ids ids in
    if ltb d best_dispersion || ((d == best_dispersion) && ltb stream best_stream)
    then least_set object_stream_ids d stream ids sets
    else least_set object_stream_ids best_dispersion best_stream best sets

abbrev pub least_dispersed : Sets → Sets → List ℕ
least_dispersed object_stream_ids [] = []
least_dispersed object_stream_ids ((stream, ids) ∷ sets) =
    least_set object_stream_ids (dispersion object_stream_ids ids) stream ids sets

abbrev pub smallest_split : List (ℕ × ℕ) → List CompactedObjectBuilder → List ℕ
smallest_split counts [] = []
smallest_split counts (b ∷ candidates) =
    ids_of (λ x. x.object_id) (first_sorted counts b candidates).blocks

-- The objects to leave out, from an empty set.
unfoldable pub add_objects_to_remove :
    CompactionType → List CompactedObjectBuilder → CompactionStats → List ℕ
add_objects_to_remove split builders stats =
    smallest_split stats.object_to_compacted_object_num (of_type split builders)
add_objects_to_remove compact builders stats =
    let blocks = blocks_of (of_type compact builders) in
    least_dispersed (insert_all (λ b. b.object_id) stream_id blocks [])
      (insert_all stream_id (λ b. b.object_id) blocks [])

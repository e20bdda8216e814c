-- ===== src/Planner/Selection/Ends.antt =====
-- The rounds of `group_object_with_limits` come to an end: each leaves a block out.
use streamstack.Prelude.{
  ℕ, zero, suc, ◌<◌, ◌≤◌, ◌≡◌, refl, arith, Bool, true, false, ◌||◌, Bool-cases, Option-cases, inl,
  inr, Option, none, some, List, [], ◌∷◌, ◌++◌, length, ltb, ◌==◌,
}
use streamstack.Planner.Block.{StreamDataBlock, split, compact}
use streamstack.Planner.Builder.{CompactedObjectBuilder}
use streamstack.Planner.Entries.{Entries}
use streamstack.Planner.Objects.{compact_objects}
use streamstack.Planner.Objects.Keeps.{All, AllBuilders, compact_objects-Keeps}
use streamstack.Planner.Selection.{
  contains, CompactionStats, stats_of, filter_blocks_to_compact, sort_stream_range_positions,
}
use streamstack.Planner.Selection.Analyze.{
  CompactionAnalyzer, retain_blocks, remove_objects, to_remove, is_stuck, over_limit, is_empty,
  Grouped, group_loop, group_object_with_limits,
}
use streamstack.Planner.Selection.Removed.{AllIds, add_objects_to_remove-AllIds}

-- Whether a block of an object stands in a list.
abbrev pub has_block : List StreamDataBlock → ℕ → Bool
has_block [] i = false
has_block (b ∷ blocks) i = (i == b.object_id) || has_block blocks i

abbrev pub IsFrom : List StreamDataBlock → ℕ → Type 0
IsFrom blocks i = has_block blocks i ≡ true

All-map :
    (P R : StreamDataBlock → Type 0)
    → ((b : StreamDataBlock) → P b → R b)
    → (l : List StreamDataBlock) → All P l
    → All R l
All-map P R f [] h = tt
All-map P R f (b ∷ l) h = (f b h.0, All-map P R f l h.1)

own_blocks : (l : List StreamDataBlock) → All (λ b. IsFrom l b.object_id) l
own_blocks [] = tt
own_blocks (x ∷ l) = (
  ground arith,
  All-map (λ b. IsFrom l b.object_id) (λ b. IsFrom (x ∷ l) b.object_id) (λ b h. ground (arith, h)) l
      (own_blocks l),
)

retain_blocks_le :
    (removed : List ℕ) (l : List StreamDataBlock) → length (retain_blocks removed l) ≤ length l
retain_blocks_le removed [] = omega arith
retain_blocks_le removed (b ∷ l) = elim (Bool-cases (contains b.object_id removed)) [
  | inl g ↦ rw g (omega (arith, retain_blocks_le removed l))
  | inr g ↦ rw g (omega (arith, retain_blocks_le removed l))
]

contains_same :
    (i j : ℕ) (ids : List ℕ) → (i == j) ≡ true → contains i ids ≡ true → contains j ids ≡ true
contains_same i j ids e h = let same : j ≡ i = ground (arith, e) in rw same h

retain_blocks_lt :
    (i : ℕ) (removed : List ℕ) (l : List StreamDataBlock)
    → contains i removed ≡ true
    → IsFrom l i
    → length (retain_blocks removed l) < length l
retain_blocks_lt i removed [] h k = ground (arith, k)
retain_blocks_lt i removed (b ∷ l) h k = elim (Bool-cases (contains b.object_id removed)) [
  | inl g ↦ rw g (omega (arith, retain_blocks_le removed l))
  | inr g ↦ elim (Bool-cases (i == b.object_id)) [
    | inl e ↦ ground (arith, g, contains_same i b.object_id removed e h)
    | inr e ↦ rw g (omega (arith, retain_blocks_lt i removed l h (rw e at k)))
  ]
]

first_removed : (i : ℕ) (removed : List ℕ) → contains i (i ∷ removed) ≡ true
first_removed i removed = ground arith

-- What a round knows of the builders of the one before, and how many rounds are left.
abbrev Known : List StreamDataBlock → List CompactedObjectBuilder → Option CompactionStats → Type 0
Known sorted builders none = Unit
Known sorted builders (some stats) = AllBuilders (λ b. IsFrom sorted b.object_id) builders

abbrev rounds : List StreamDataBlock → Option CompactionStats → ℕ
rounds sorted none = suc (length sorted)
rounds sorted (some stats) = length sorted

removed-AllIds :
    (a : CompactionAnalyzer) (sorted : List StreamDataBlock)
    (builders : List CompactedObjectBuilder) (stats : CompactionStats)
    → AllBuilders (λ b. IsFrom sorted b.object_id) builders
    → AllIds (IsFrom sorted) (to_remove a builders (some stats))
removed-AllIds a sorted builders stats h =
    elim (Bool-cases (ltb a.max_stream_object_num stats.stream_object_num)) [
      | inl g ↦ rw g (add_objects_to_remove-AllIds (IsFrom sorted) split builders stats h)
      | inr g ↦ rw g (add_objects_to_remove-AllIds (IsFrom sorted) compact builders stats h)
    ]

-- A set of objects that is not empty takes a block out.
removed_some :
    (sorted : List StreamDataBlock) (stats : CompactionStats) (removed : List ℕ)
    → AllIds (IsFrom sorted) removed
    → is_stuck (some stats) removed ≡ false
    → length (retain_blocks removed sorted) < length sorted
removed_some sorted stats [] h e = ground (arith, e)
removed_some sorted stats (i ∷ removed) h e =
    retain_blocks_lt i (i ∷ removed) sorted (first_removed i removed) h.0

progress :
    (a : CompactionAnalyzer) (sorted : List StreamDataBlock)
    (builders : List CompactedObjectBuilder) (stats : Option CompactionStats)
    → Known sorted builders stats
    → is_stuck stats (to_remove a builders stats) ≡ false
    → length (retain_blocks (to_remove a builders stats) sorted) < rounds sorted stats
progress a sorted builders none h e = omega (arith, retain_blocks_le [] sorted)
progress a sorted builders (some stats) h e =
    removed_some sorted stats (to_remove a builders (some stats))
      (removed-AllIds a sorted builders stats h) e

abbrev Ends : Option Grouped → Type 0
Ends r = (g : Grouped) × (r ≡ some g)

group_loop-Ends :
    (a : CompactionAnalyzer) (fuel : ℕ) (map : Entries) (sorted : List StreamDataBlock)
    (builders : List CompactedObjectBuilder) (stats : Option CompactionStats) (excluded : List ℕ)
    → Known sorted builders stats
    → rounds sorted stats < fuel
    → Ends (group_loop a fuel map sorted builders stats excluded)
unfolding group_loop
group_loop-Ends a zero map sorted builders stats excluded h l = absurd (omega arith)
group_loop-Ends a (suc fuel) map sorted builders stats excluded h l =
    let removed = to_remove a builders stats in
    let sorted' = retain_blocks removed sorted in
    let map' = filter_blocks_to_compact (remove_objects removed map) in
    elim (Bool-cases (is_stuck stats removed)) [
      | inl s ↦ ((none, excluded), rw s refl)
      | inr s ↦ elim (Bool-cases (is_empty map')) [
        | inl m ↦ ((none, excluded ++ removed), rw (s, m) refl)
        | inr m ↦ elim (Option-cases (compact_objects a.stream_split_size sorted')) [
          | inl c ↦ ((none, excluded ++ removed), rw (s, m, c) refl)
          | inr (builders', c) ↦
              let kept : AllBuilders (λ b. IsFrom sorted' b.object_id) builders' = rw c at (
                compact_objects-Keeps (λ b. IsFrom sorted' b.object_id) a.stream_split_size sorted'
                  (own_blocks sorted')) in
              let (g, e) =
                group_loop-Ends a fuel map' sorted' builders' (some (stats_of builders'))
                  (excluded ++ removed) kept
                  (omega (arith, progress a sorted builders stats h s)) in
              elim (Bool-cases (over_limit a (stats_of builders'))) [
                | inl o ↦ (g, rw (s, m, c, o) e)
                | inr o ↦ ((some builders', excluded ++ removed), rw (s, m, c, o) refl)
              ]
        ]
      ]
    ]

-- `group_object_with_limits` comes to an end on every map of blocks, whatever the limits: each round after the first leaves
-- out an object that has a block among the sorted ones, so the rounds are at most two more than these blocks.
pub group_object_with_limits_ends :
    (a : CompactionAnalyzer) (map : Entries) (excluded : List ℕ)
    → (g : Grouped) × (group_object_with_limits a map excluded ≡ some g)
unfolding group_object_with_limits
group_object_with_limits_ends a map excluded =
    let sorted = sort_stream_range_positions map in
    group_loop-Ends a (suc (suc (length sorted))) map sorted [] none excluded tt (omega arith)

-- ===== src/Planner/Selection/Removed.antt =====
-- The objects that are left out have blocks in the builders that the choice is made from.
use streamstack.Prelude.{
  ℕ, Bool, true, false, ◌&&◌, ◌||◌, Bool-cases, inl, inr, List, [], ◌∷◌, ltb, ◌==◌, if◌then◌else◌,
}
use streamstack.Planner.Block.{StreamDataBlock, stream_id, CompactionType, split, compact}
use streamstack.Planner.Builder.{CompactedObjectBuilder}
use streamstack.Planner.Objects.Keeps.{All, AllBuilders, All-append}
use streamstack.Planner.Selection.{
  Sets, contains, insert_id, insert_at, insert_all, ids_of, CompactionStats, is_type, of_type,
  sorts_before, first_sorted, blocks_of, dispersion, least_set, least_dispersed, smallest_split,
  add_objects_to_remove,
}

module _ (Q : ℕ → Type 0) where
  abbrev pub AllIds : List ℕ → Type 0
  AllIds [] = Unit
  AllIds (i ∷ ids) = Q i × AllIds ids

  abbrev pub AllSets : Sets → Type 0
  AllSets [] = Unit
  AllSets ((k, ids) ∷ sets) = AllIds ids × AllSets sets

  pub insert_id-AllIds : (i : ℕ) (ids : List ℕ) → Q i → AllIds ids → AllIds (insert_id i ids)
  insert_id-AllIds i ids q h = elim (Bool-cases (contains i ids)) [
    | inl g ↦ rw g h
    | inr g ↦ rw g (q, h)
  ]

  pub ids_of-AllIds :
      (i : StreamDataBlock → ℕ) (l : List StreamDataBlock)
      → All (λ b. Q (i b)) l
      → AllIds (ids_of i l)
  ids_of-AllIds i [] h = tt
  ids_of-AllIds i (b ∷ l) h = insert_id-AllIds (i b) (ids_of i l) h.0 (ids_of-AllIds i l h.1)

  pub insert_at-AllSets :
      (key i : ℕ) (sets : Sets) → Q i → AllSets sets → AllSets (insert_at key i sets)
  unfolding insert_at
  insert_at-AllSets key i [] q h = ((q, tt), tt)
  insert_at-AllSets key i ((k, ids) ∷ sets) q h = elim (Bool-cases (key == k)) [
    | inl g ↦ rw g (insert_id-AllIds i ids q h.0, h.1)
    | inr g ↦ rw g (h.0, insert_at-AllSets key i sets q h.1)
  ]

  pub insert_all-AllSets :
      (key i : StreamDataBlock → ℕ) (l : List StreamDataBlock) (sets : Sets)
      → All (λ b. Q (i b)) l
      → AllSets sets
      → AllSets (insert_all key i l sets)
  unfolding insert_all
  insert_all-AllSets key i [] sets h k = k
  insert_all-AllSets key i (b ∷ l) sets h k =
      insert_all-AllSets key i l (insert_at (key b) (i b) sets) h.1
        (insert_at-AllSets (key b) (i b) sets h.0 k)

  pub least_set-AllIds :
      (streams : Sets) (d s : ℕ) (best : List ℕ) (sets : Sets)
      → AllIds best
      → AllSets sets
      → AllIds (least_set streams d s best sets)
  least_set-AllIds streams d s best [] h k = h
  least_set-AllIds streams d s best ((stream, ids) ∷ sets) h k =
      let e = dispersion streams ids in
      elim (Bool-cases (ltb e d || ((e == d) && ltb stream s))) [
        | inl g ↦ rw g (least_set-AllIds streams e stream ids sets k.0 k.1)
        | inr g ↦ rw g (least_set-AllIds streams d s best sets h k.1)
      ]

  pub least_dispersed-AllIds :
      (streams sets : Sets) → AllSets sets → AllIds (least_dispersed streams sets)
  least_dispersed-AllIds streams [] h = tt
  least_dispersed-AllIds streams ((stream, ids) ∷ sets) h =
      least_set-AllIds streams (dispersion streams ids) stream ids sets h.0 h.1

  abbrev pub OfQ : StreamDataBlock → Type 0
  OfQ b = Q b.object_id

  pub of_type-All :
      (t : CompactionType) (builders : List CompactedObjectBuilder)
      → AllBuilders OfQ builders
      → AllBuilders OfQ (of_type t builders)
  of_type-All t [] h = tt
  of_type-All t (b ∷ builders) h = elim (Bool-cases (is_type b.compaction_type t)) [
    | inl g ↦ rw g (h.0, of_type-All t builders h.1)
    | inr g ↦ rw g (of_type-All t builders h.1)
  ]

  pub blocks_of-All :
      (builders : List CompactedObjectBuilder)
      → AllBuilders OfQ builders
      → All OfQ (blocks_of builders)
  blocks_of-All [] h = tt
  blocks_of-All (b ∷ builders) h =
      All-append OfQ b.blocks (blocks_of builders) h.0 (blocks_of-All builders h.1)

  pub either-All :
      (x : Bool) (a b : CompactedObjectBuilder)
      → All OfQ a.blocks
      → All OfQ b.blocks
      → All OfQ (if x then a else b).blocks
  either-All true a b h k = h
  either-All false a b h k = k

  pub first_sorted-All :
      (counts : List (ℕ × ℕ)) (best : CompactedObjectBuilder)
      (builders : List CompactedObjectBuilder)
      → All OfQ best.blocks
      → AllBuilders OfQ builders
      → All OfQ (first_sorted counts best builders).blocks
  first_sorted-All counts best [] h k = h
  first_sorted-All counts best (b ∷ builders) h k =
      first_sorted-All counts (if sorts_before counts b best then b else best) builders
        (either-All (sorts_before counts b best) b best k.0 h) k.1

  pub smallest_split-AllIds :
      (counts : List (ℕ × ℕ)) (builders : List CompactedObjectBuilder)
      → AllBuilders OfQ builders
      → AllIds (smallest_split counts builders)
  smallest_split-AllIds counts [] h = tt
  smallest_split-AllIds counts (b ∷ builders) h =
      ids_of-AllIds (λ x. x.object_id) (first_sorted counts b builders).blocks
        (first_sorted-All counts b builders h.0 h.1)

  pub add_objects_to_remove-AllIds :
      (t : CompactionType) (builders : List CompactedObjectBuilder) (stats : CompactionStats)
      → AllBuilders OfQ builders
      → AllIds (add_objects_to_remove t builders stats)
  unfolding add_objects_to_remove
  add_objects_to_remove-AllIds split builders stats h =
      smallest_split-AllIds stats.object_to_compacted_object_num (of_type split builders)
        (of_type-All split builders h)
  add_objects_to_remove-AllIds compact builders stats h =
      let blocks = blocks_of (of_type compact builders) in
      least_dispersed-AllIds (insert_all (λ b. b.object_id) stream_id blocks [])
        (insert_all stream_id (λ b. b.object_id) blocks [])
        (insert_all-AllSets stream_id (λ b. b.object_id) blocks []
          (blocks_of-All (of_type compact builders) (of_type-All compact builders h)) tt)

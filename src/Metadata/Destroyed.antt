-- ===== src/Metadata/Destroyed.antt =====
-- The first-in first-out queue of objects to destroy: `mark_destroyed`, `mark_destroy_objects` and
-- `clean_destroyed_objects` of picomq/pico-metadata/src/apply.rs.
use streamstack.Prelude.{ℕ, not, none, some, List, [], ◌∷◌, length, add_u64, ◌==◌, if◌then◌else◌}
use streamstack.OrdMap.{OrdMap}
use streamstack.OrdMap.Keys.{u64_key}
use streamstack.Metadata.Types.{
  CompactOperations, delete, MetadataResult, unit, ok, err, unexpected,
}
use streamstack.Metadata.State.{MetadataState, Outcome}

module _ ⦃im : OrdMap⦄ where
  open im use {get, insert, remove}

  -- Marking an object again keeps its place in the queue.
  unfoldable pub mark_destroyed : ℕ → CompactOperations → MetadataState → MetadataState
  mark_destroyed object_id op s = elim (get s.destroyed_by_id object_id) [
    | some seq ↦ record s { mark_destroyed = insert s.mark_destroyed seq (object_id, op) }
    | none ↦ record s {
      next_destroyed_seq = add_u64 s.next_destroyed_seq 1;
      mark_destroyed = insert s.mark_destroyed s.next_destroyed_seq (object_id, op);
      destroyed_by_id = insert s.destroyed_by_id object_id s.next_destroyed_seq;
    }
  ]

  unfoldable pub mark_all_deleted : List ℕ → MetadataState → MetadataState
  mark_all_deleted [] s = s
  mark_all_deleted (object_id ∷ ids) s = mark_all_deleted ids (mark_destroyed object_id delete s)

  unfoldable pub mark_each : List ℕ → List CompactOperations → MetadataState → MetadataState
  mark_each (object_id ∷ ids) (op ∷ ops) s = mark_each ids ops (mark_destroyed object_id op s)
  mark_each [] ops s = s
  mark_each (object_id ∷ ids) [] s = s

  unfoldable pub mark_destroy_objects :
      List ℕ → List CompactOperations → MetadataState → Outcome MetadataState (Unit {0})
  mark_destroy_objects [] ops s = (ok tt, s)
  mark_destroy_objects (i ∷ ids) [] s = (ok tt, mark_all_deleted (i ∷ ids) s)
  mark_destroy_objects (i ∷ ids) (o ∷ ops) s =
      if not (length (o ∷ ops) == length (i ∷ ids))
      then (err unexpected, s)
      else (ok tt, mark_each (i ∷ ids) (o ∷ ops) s)

  unfoldable pub clean_each : List ℕ → MetadataState → MetadataState
  clean_each [] s = s
  clean_each (object_id ∷ ids) s = clean_each ids (elim (get s.destroyed_by_id object_id) [
    | none ↦ s
    | some seq ↦ record s {
      destroyed_by_id = remove s.destroyed_by_id object_id;
      mark_destroyed = remove s.mark_destroyed seq;
    }
  ])

  unfoldable pub clean_destroyed_objects :
      List ℕ → MetadataState → Outcome MetadataState MetadataResult
  clean_destroyed_objects object_ids s = (ok unit, clean_each object_ids s)

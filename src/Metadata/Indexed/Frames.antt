-- ===== src/Metadata/Indexed/Frames.antt =====
-- The steps that leave the stream plane as it is.
use streamstack.Prelude.{ℕ, zero, suc, ℤ, ◌≡◌, List, [], ◌∷◌, arith, refl, ◌∙◌}
use streamstack.OrdMap.{OrdMap}
use streamstack.OrdMap.Keys.{u64_key, i32_key, pair_key, triple_key}
use streamstack.Metadata.State.{MetadataState}
use streamstack.Metadata.Types.{CompactOperations, delete}
use streamstack.Metadata.Destroyed.{
  mark_destroyed, mark_all_deleted, mark_each, mark_destroy_objects, clean_each,
}
use streamstack.Metadata.Leases.{lease, commit_prepared, expire_each}
use streamstack.Metadata.Objects.{remove_stream_set_object}
use streamstack.Metadata.Commit.{drop_compacted}
use streamstack.Metadata.Compaction.{drop_sources}
use streamstack.Metadata.Indexed.{stream_plane}

module _ ⦃im : OrdMap⦄ where
  open im use {
    Map, get, insert, remove, iter, range, range_to, get-insert, get-remove, get-iter, range-iter,
  }

  pub stream_plane-mark_destroyed :
      (i : ℕ) (op : CompactOperations) (s : MetadataState)
      → stream_plane (mark_destroyed i op s) ≡ stream_plane s
  unfolding mark_destroyed
  stream_plane-mark_destroyed i op s = ground arith

  pub stream_plane-mark_all_deleted :
      (ids : List ℕ) (s : MetadataState) → stream_plane (mark_all_deleted ids s) ≡ stream_plane s
  unfolding mark_all_deleted
  stream_plane-mark_all_deleted [] s = refl
  stream_plane-mark_all_deleted (i ∷ ids) s =
      stream_plane-mark_all_deleted ids _ ∙ stream_plane-mark_destroyed i delete s

  pub stream_plane-mark_each :
      (ids : List ℕ) (ops : List CompactOperations) (s : MetadataState)
      → stream_plane (mark_each ids ops s) ≡ stream_plane s
  unfolding mark_each
  stream_plane-mark_each [] ops s = refl
  stream_plane-mark_each (i ∷ ids) [] s = refl
  stream_plane-mark_each (i ∷ ids) (op ∷ ops) s =
      stream_plane-mark_each ids ops _ ∙ stream_plane-mark_destroyed i op s

  pub stream_plane-mark_destroy_objects :
      (ids : List ℕ) (ops : List CompactOperations) (s : MetadataState)
      → stream_plane (mark_destroy_objects ids ops s).1 ≡ stream_plane s
  unfolding mark_destroy_objects
  stream_plane-mark_destroy_objects [] ops s = refl
  stream_plane-mark_destroy_objects (i ∷ ids) [] s = stream_plane-mark_all_deleted (i ∷ ids) s
  stream_plane-mark_destroy_objects (i ∷ ids) (o ∷ ops) s =
      ground (arith, stream_plane-mark_each (i ∷ ids) (o ∷ ops) s)

  pub stream_plane-clean_each :
      (ids : List ℕ) (s : MetadataState) → stream_plane (clean_each ids s) ≡ stream_plane s
  unfolding clean_each
  stream_plane-clean_each [] s = refl
  stream_plane-clean_each (i ∷ ids) s = stream_plane-clean_each ids _ ∙ ground arith

  pub stream_plane-lease :
      (n i : ℕ) (deadline : ℤ) (s : MetadataState)
      → stream_plane (lease n i deadline s) ≡ stream_plane s
  unfolding lease
  stream_plane-lease zero i deadline s = refl
  stream_plane-lease (suc n) i deadline s = stream_plane-lease n (suc i) deadline _

  pub stream_plane-commit_prepared :
      (i : ℕ) (s : MetadataState) → stream_plane (commit_prepared i s) ≡ stream_plane s
  unfolding commit_prepared
  stream_plane-commit_prepared i s = ground arith

  pub stream_plane-expire_each :
      (expired : List ((ℤ × ℕ) × Unit {0})) (s : MetadataState)
      → stream_plane (expire_each expired s) ≡ stream_plane s
  unfolding expire_each
  stream_plane-expire_each [] s = refl
  stream_plane-expire_each ((k, _) ∷ expired) s = stream_plane-expire_each expired _

  pub stream_plane-remove_stream_set_object :
      (i : ℕ) (s : MetadataState) → stream_plane (remove_stream_set_object i s) ≡ stream_plane s
  unfolding remove_stream_set_object
  stream_plane-remove_stream_set_object i s = ground arith

  pub stream_plane-drop_compacted :
      (ids : List ℕ) (s : MetadataState) → stream_plane (drop_compacted ids s) ≡ stream_plane s
  unfolding drop_compacted
  stream_plane-drop_compacted [] s = refl
  stream_plane-drop_compacted (i ∷ ids) s =
      stream_plane-drop_compacted ids _
      ∙ (stream_plane-mark_destroyed i delete _ ∙ stream_plane-remove_stream_set_object i s)

  pub stream_plane-drop_sources :
      (stream_id : ℕ) (ids : List ℕ) (s : MetadataState)
      → stream_plane (drop_sources stream_id ids s) ≡ stream_plane s
  unfolding drop_sources
  stream_plane-drop_sources stream_id [] s = refl
  stream_plane-drop_sources stream_id (i ∷ ids) s =
      stream_plane-drop_sources stream_id ids _ ∙ ground arith
